-- ===== src/Writes/Groups.antt =====
-- The handlers of internal/server/group.go and the group messages follow every preorder of their statements.
use anp_server_go.Common.{List, Option, String, [], none, some, ◌∷◌}
use anp_server_go.Env.{Env}
use anp_server_go.Exec.{Error}
use anp_server_go.Group.Membership.{
  add_group_member, add_initial_members, add_resolved, group_add, group_create, group_join,
  group_leave, group_remove, join_again, join_anew, join_group_member, named_member,
}
use anp_server_go.Group.Reads.{
  bump_group_state_version, group_state_version, load_group, next_group_event_seq,
}
use anp_server_go.Group.Send.{group_send}
use anp_server_go.Group.Updates.{
  group_get_info, group_rebind_member, group_update_policy, group_update_profile, rebind_target,
  updated,
}
use anp_server_go.Json.{Fields, GoMap, Json}
use anp_server_go.Moves.{Moves, Moves-bind, Moves-gets, Preorder}
use anp_server_go.Proof.{verify_attached_proof, verify_origin_proof}
use anp_server_go.Store.{GroupRow}
use anp_server_go.Writes.{Writes, write_rules}

pub verify_origin_proof-Moves :
    {p : Preorder} (w : Writes p) (env : Env) (sender method : String) (meta body auth : GoMap)
    → Moves p (verify_origin_proof env sender method meta body auth)
unfolding verify_origin_proof
verify_origin_proof-Moves w env sender method meta body auth = search write_rules depth 12

pub verify_attached_proof-Moves :
    {p : Preorder} (w : Writes p) (env : Env) (sender method : String) (meta body auth : GoMap)
    → Moves p (verify_attached_proof env sender method meta body auth)
unfolding verify_attached_proof
verify_attached_proof-Moves w env sender method meta body none = search write_rules
verify_attached_proof-Moves w env sender method meta body (some auth) =
    verify_origin_proof-Moves w env sender method meta body (some auth)

pub load_group-Moves : {p : Preorder} (w : Writes p) (gid : String) → Moves p (load_group gid)
unfolding load_group
load_group-Moves w gid = search write_rules

pub group_state_version-Moves :
    {p : Preorder} (w : Writes p) (gid : String) → Moves p (group_state_version gid)
unfolding group_state_version
group_state_version-Moves w gid = search write_rules

pub bump_group_state_version-Moves :
    {p : Preorder} (w : Writes p) (gid : String) → Moves p (bump_group_state_version gid)
unfolding bump_group_state_version
bump_group_state_version-Moves w gid = search (write_rules, group_state_version-Moves)

pub next_group_event_seq-Moves :
    {p : Preorder} (w : Writes p) (gid : String) → Moves p (next_group_event_seq gid)
unfolding next_group_event_seq
next_group_event_seq-Moves w gid = search write_rules

pub ruleset group_parts = (
  write_rules, verify_attached_proof-Moves, load_group-Moves, group_state_version-Moves,
  bump_group_state_version-Moves, next_group_event_seq-Moves,
)

add_group_member-Moves :
    {p : Preorder} (w : Writes p) (env : Env) (gid did role : String)
    → Moves p (add_group_member env gid did role)
unfolding add_group_member
add_group_member-Moves w env gid did role = search group_parts

add_resolved-Moves :
    {p : Preorder} (w : Writes p) (env : Env) (gid role : String) (did : Option String)
    → Moves p (add_resolved env gid role did)
unfolding add_resolved
add_resolved-Moves w env gid role none = search group_parts
add_resolved-Moves w env gid role (some did) = add_group_member-Moves w env gid did role

add_initial_members-Moves :
    {p : Preorder} (w : Writes p) (env : Env) (gid : String) (entries : List Json)
    → Moves p (add_initial_members env gid entries)
unfolding add_initial_members
add_initial_members-Moves w env gid [] = search group_parts
add_initial_members-Moves w env gid (e ∷ es) = Moves-bind _ _ (Moves-gets _) (λ did.
    Moves-bind _ _ (add_resolved-Moves w env gid _ did)
      (λ _. add_initial_members-Moves w env gid es))

module _ (env : Env) (caller : String) (params : GoMap) where
  pub group_create-Moves : {p : Preorder} (w : Writes p) → Moves p (group_create env caller params)
  unfolding group_create
  group_create-Moves w =
      search (group_parts, add_group_member-Moves, add_initial_members-Moves) depth 20

  pub group_get_info-Moves : {p : Preorder} (w : Writes p) → Moves p (group_get_info env params)
  unfolding group_get_info
  group_get_info-Moves w = search group_parts depth 12

  join_again-Moves : {p : Preorder} (w : Writes p) (gid did : String) → Moves p (join_again gid did)
  unfolding join_again
  join_again-Moves w gid did = search group_parts

  join_anew-Moves :
      {p : Preorder} (w : Writes p) (gid did : String) → Moves p (join_anew env gid did)
  unfolding join_anew join_group_member
  join_anew-Moves w gid did = search group_parts depth 8

  pub group_join-Moves : {p : Preorder} (w : Writes p) → Moves p (group_join env caller params)
  unfolding group_join
  group_join-Moves w = search (group_parts, join_again-Moves, join_anew-Moves) depth 12

  named_member-Moves :
      {p : Preorder} (w : Writes p) (body : GoMap) → Moves p (named_member env body)
  unfolding named_member
  named_member-Moves w body = search group_parts depth 8

  pub group_add-Moves : {p : Preorder} (w : Writes p) → Moves p (group_add env caller params)
  unfolding group_add
  group_add-Moves w = search (group_parts, named_member-Moves, add_group_member-Moves) depth 15

  pub group_remove-Moves : {p : Preorder} (w : Writes p) → Moves p (group_remove caller params)
  unfolding group_remove
  group_remove-Moves w = search group_parts depth 15

  pub group_leave-Moves : {p : Preorder} (w : Writes p) → Moves p (group_leave caller params)
  unfolding group_leave
  group_leave-Moves w = search group_parts depth 10

  updated-Moves :
      {p : Preorder} (w : Writes p) (gid : String) (old : GroupRow → Fields) (patch full : GoMap)
      (e : Error)
      → Moves p (updated gid old patch full e)
  unfolding updated
  updated-Moves w gid old none full e = search group_parts
  updated-Moves w gid old (some patch) full e = search group_parts

  pub group_update_profile-Moves :
      {p : Preorder} (w : Writes p) → Moves p (group_update_profile caller params)
  unfolding group_update_profile
  group_update_profile-Moves w = search (group_parts, updated-Moves) depth 15

  pub group_update_policy-Moves :
      {p : Preorder} (w : Writes p) → Moves p (group_update_policy caller params)
  unfolding group_update_policy
  group_update_policy-Moves w = search (group_parts, updated-Moves) depth 15

  rebind_target-Moves :
      {p : Preorder} (w : Writes p) (previous : String) → Moves p (rebind_target params previous)
  unfolding rebind_target
  rebind_target-Moves w previous = search group_parts depth 8

  pub group_rebind_member-Moves :
      {p : Preorder} (w : Writes p) → Moves p (group_rebind_member caller params)
  unfolding group_rebind_member
  group_rebind_member-Moves w = search (group_parts, rebind_target-Moves) depth 18

  pub group_send-Moves : {p : Preorder} (w : Writes p) → Moves p (group_send env caller params)
  unfolding group_send
  group_send-Moves w = search group_parts depth 25
