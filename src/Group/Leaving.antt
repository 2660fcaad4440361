-- ===== src/Group/Leaving.antt =====
-- group.leave of internal/server/group.go, and group.send after it.
use mathlib.Core.Option
use anp_server_go.Common.{
  Option, Option-cases, String, [], arith, false, if◌then◌else◌, inl, inr, none, pair_eq, refl,
  some, string_eq, ◌+◌, ◌==◌, ◌∙◌, ◌∷◌, ◌≡◌,
}
use anp_server_go.Common.Dict.{beq_refl, lookup, lookup-erase, lookup-update}
use anp_server_go.Common.Tests.{pair_beq}
use anp_server_go.Env.{Env}
use anp_server_go.Exec.{Error, Result, err, ok, or_raise, ◌>>=◌}
use anp_server_go.Group.Membership.{group_leave}
use anp_server_go.Group.Reads.{
  bump_group_state_version, group_did_from_params, group_member_role, group_not_found,
  group_state_version, is_group_member, sender_or_claimed,
}
use anp_server_go.Group.Send.{group_send, send_target}
use anp_server_go.Group.Send.Delivery.{Sends, group_send-Sends}
use anp_server_go.Json.{GoMap, Json, get_map, nat, object, str}
use anp_server_go.Sql.{delete_member, increment_state_version}
use anp_server_go.Store.{Db, GroupRow}

-- The DID that a request is from.
abbrev pub sender_of : String → GoMap → String
sender_of caller params = sender_or_claimed caller (get_map params "meta")

-- The group's row with the next state version.
abbrev pub versioned : GroupRow → GroupRow
versioned r = record r { group_state_version = r.group_state_version + 1 }

-- The answer to a caller who leaves a group with a row, if it has one.
abbrev pub leave_reply : String → String → Option GroupRow → Result Json
leave_reply gid did none = err group_not_found
leave_reply gid did (some r) = ok (
    object (
      ("group_did", str gid)
      ∷ ("leaver_did", str did)
      ∷ ("group_state_version", nat (r.group_state_version + 1))
      ∷ []))

-- How group.leave ends for a group that the request names: the row of the one who leaves is gone and
-- every other membership stays; the group's row has the next version, which is answered, and every
-- other group stays, as the messages do.
abbrev pub Left : String → String → Db → Result Json × Db → Type 0
Left gid did s (r, t) =
    ((k : String × String)
      → lookup k t.group_members
        ≡ (if pair_eq.beq (gid, did) k then none else lookup k s.group_members))
    × ((name : String)
        → lookup name t.groups ≡ (
            if gid == name
            then Option.map versioned (lookup name s.groups)
            else lookup name s.groups))
    × (t.messages ≡ s.messages)
    × (r ≡ leave_reply gid did (lookup gid s.groups))

-- Leaving a group that the request names takes away the membership of the one who leaves, who is the
-- authenticated caller where there is one, and no other membership; it gives the group the next
-- state version, and changes no other group and no message. The version is the answer, and a group
-- without a row is an error.
pub group_leave-Left :
    (caller : String) (params : GoMap) (s : Db)
    → (group_did_from_params params == "") ≡ false
    → Left (group_did_from_params params) (sender_of caller params) s (group_leave caller params s)
unfolding group_leave bump_group_state_version group_state_version delete_member
    increment_state_version ◌>>=◌ or_raise
group_leave-Left caller params s named =
    let gid = group_did_from_params params in
    let did = sender_of caller params in
    elim (Option-cases (lookup gid s.groups)) [
      | inl gone ↦ rw named (
          rw (lookup-update gid gid versioned s.groups) (
            rw (beq_refl gid) (
              rw gone (
                λ k. lookup-erase (gid, did) k s.group_members,
                λ name. lookup-update gid name versioned s.groups,
                refl,
                refl,
              ))))
      | inr (r, found) ↦ rw named (
          rw (lookup-update gid gid versioned s.groups) (
            rw (beq_refl gid) (
              rw found (
                λ k. lookup-erase (gid, did) k s.group_members,
                λ name. lookup-update gid name versioned s.groups,
                refl,
                refl,
              ))))
    ]

is_group_member-Left :
    (gid did : String) (s : Db) (p : Result Json × Db)
    → Left gid did s p
    → is_group_member p.1 gid did ≡ false
unfolding is_group_member group_member_role pair_beq
is_group_member-Left gid did s (r, t) h = rw (h.0 (gid, did)) (rw (beq_refl gid, beq_refl did) refl)

-- A request that fails and stores no message.
abbrev pub StoresNone : Db → Result Json × Db → Type 0
StoresNone s (r, t) = ((e : Error) × (r ≡ err e)) × (t.messages ≡ s.messages)

outsider :
    (env : Env) (caller : String) (params : GoMap) (s : Db) (p : Result Json × Db)
    → Sends env caller params s p
    → is_group_member s (send_target params) (sender_of caller params) ≡ false
    → StoresNone s p
outsider env caller params s (err e, t) h out = ((e, refl), h.0)
outsider env caller params s (ok v, t) h out = let member = h.2 in ground arith

-- Who has left a group can send nothing to it: right after group.leave, a group.send from the same
-- DID to the same group fails and stores no message, whatever else the two requests say.
pub group_send-group_leave :
    (env : Env) (caller poster : String) (params post : GoMap) (s : Db)
    → (group_did_from_params params == "") ≡ false
    → send_target post ≡ group_did_from_params params
    → sender_of poster post ≡ sender_of caller params
    → StoresNone s (group_send env poster post (group_leave caller params s).1)
group_send-group_leave env caller poster params post s named same_group same_sender =
    let gid = group_did_from_params params in
    let did = sender_of caller params in
    let t = (group_leave caller params s).1 in
    let left = group_leave-Left caller params s named in
    let gone = is_group_member-Left gid did s (group_leave caller params s) left in
    let refused =
      outsider env poster post t (group_send env poster post t) (group_send-Sends env poster post t)
        (rw (same_group, same_sender) gone) in
    (refused.0, refused.1 ∙ left.2)
