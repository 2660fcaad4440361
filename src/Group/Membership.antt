-- ===== src/Group/Membership.antt =====
-- internal/server/group.go: creating a group, and joining, adding, removing and leaving.
use anp_server_go.Common.{
  Bool, List, Option, String, [], concat, if◌then◌else◌, none, not, pair_eq, some, string_eq, ℕ,
  ◌&&◌, ◌==◌, ◌||◌, ◌∷◌,
}
use anp_server_go.Common.Dict.{lookup}
use anp_server_go.Env.{Env, now_sec}
use anp_server_go.Exec.{Error, Exec, errorf, gets, invalid, or_raise, pure, raise_if, ◌>>=◌, ◌>>◌}
use anp_server_go.Group.Reads.{
  bump_group_state_version, group_did_from_params, group_permitted, group_state_version,
  is_group_member, load_group, owner_did, resolve_member_did, sender_or_claimed,
}
use anp_server_go.Json.{
  GoMap, Json, as_map, get_arr, get_map, get_str, map_json, nat, obj, object, str,
}
use anp_server_go.Sql.{activate_member, delete_member, insert_group, upsert_member}
use anp_server_go.Store.{Db, GroupRow}

-- newGroupDID, from the request's first random read
unfoldable pub new_group_did : Env → String
new_group_did env = concat "did:anp:group:" (env.random_hex 0 8)

-- An empty role is stored as "member".
unfoldable pub add_group_member : Env → String → String → String → Exec (Unit {0})
add_group_member env gid did role =
    upsert_member gid did (if role == "" then "member" else role) (now_sec env)

unfoldable pub join_group_member : Env → String → String → Exec (Unit {0})
join_group_member env gid did = activate_member gid did (now_sec env)

-- The DID of an entry of `initial_members`: the handle's where one is given, and none where the
-- loop skips the entry.
unfoldable pub initial_member_did : Env → Db → GoMap → Option String
initial_member_did env s m =
    let did = get_str m "member_did" in
    let handle = get_str m "member_handle" in
    let named = if did == "" then none else some did in
    if handle == "" then named else resolve_member_did env s handle

unfoldable pub add_resolved : Env → String → String → Option String → Exec (Unit {0})
add_resolved env gid role none = pure tt
add_resolved env gid role (some did) = add_group_member env gid did role

unfoldable pub add_initial_members : Env → String → List Json → Exec (Unit {0})
unfolding initial_member_did
add_initial_members env gid [] = pure tt
add_initial_members env gid (entry ∷ rest) = do
  let m = as_map (some entry)
  did ← gets (λ s. initial_member_did env s m)
  add_resolved env gid (get_str m "role") did
  add_initial_members env gid rest

abbrev or_nil : Option (List Json) → List Json
or_nil none = []
or_nil (some vs) = vs

abbrev version_or_zero : Option GroupRow → ℕ
version_or_zero none = 0
version_or_zero (some r) = r.group_state_version

unfoldable pub group_create : Env → String → GoMap → Exec Json
unfolding new_group_did
group_create env auth_did params = do
  let meta = get_map params "meta"
  let body = get_map params "body"
  policy ← or_raise (get_map body "group_policy") (invalid "group_policy is required")
  let creator = sender_or_claimed auth_did meta
  raise_if (creator == "") (invalid "creator_did is required")
  let gid = new_group_did env
  let profile = get_map body "group_profile"
  insert_group gid (record {
    group_policy = policy;
    group_profile = profile;
    owner_did = creator;
    group_state_version = 0;
    group_event_seq = 0;
    created_at = now_sec env;
  })
  add_group_member env gid creator "owner"
  add_initial_members env gid (or_nil (get_arr body "initial_members"))
  version ← gets (λ s. version_or_zero (lookup gid s.groups))
  pure (
      object (
        ("group_did", str gid)
        ∷ ("group_state_version", nat version)
        ∷ ("created_at", str (env.rfc3339 (now_sec env)))
        ∷ ("creator_did", str creator)
        ∷ ("group_profile", map_json profile)
        ∷ ("group_policy", obj policy)
        ∷ []))

abbrev pub group_did_required : Error
group_did_required = invalid "group_did is required"

abbrev pub active_reply : String → String → ℕ → Json
active_reply gid did version = object (
    ("group_did", str gid)
    ∷ ("member_did", str did)
    ∷ ("membership_status", str "active")
    ∷ ("group_state_version", nat version)
    ∷ [])

-- The admission modes that let anybody in.
unfoldable pub is_open_join : GroupRow → Bool
is_open_join r =
    let mode = get_str (some r.group_policy) "admission_mode" in mode == "" || mode == "open-join"

-- Joining a group that one is in changes nothing.
unfoldable pub join_again : String → String → Exec Json
join_again gid did = do version ← group_state_version gid; pure (active_reply gid did version)

unfoldable pub join_anew : Env → String → String → Exec Json
join_anew env gid did = do
  join_group_member env gid did
  version ← bump_group_state_version gid
  pure (active_reply gid did version)

unfoldable pub group_join : Env → String → GoMap → Exec Json
unfolding is_open_join
group_join env auth_did params = do
  let gid = group_did_from_params params
  raise_if (gid == "") group_did_required
  let did = sender_or_claimed auth_did (get_map params "meta")
  r ← load_group gid
  raise_if (not (is_open_join r)) (errorf "group %q is not open-join" (gid ∷ []))
  already ← gets (λ s. is_group_member s gid did)
  if already then join_again gid did else join_anew env gid did

-- The member that a request names: its handle's DID where a handle is given.
unfoldable pub named_member : Env → GoMap → Exec String
named_member env body = do
  let did = get_str body "member_did"
  let handle = get_str body "member_handle"
  raise_if (did == "" && handle == "") (invalid "member_did or member_handle is required")
  resolved ← gets (λ s. resolve_member_did env s handle)
  if handle == ""
      then pure did
      else or_raise resolved (errorf "member_handle %q could not be resolved" (handle ∷ []))

unfoldable pub group_add : Env → String → GoMap → Exec Json
group_add env auth_did params = do
  let gid = group_did_from_params params
  raise_if (gid == "") group_did_required
  allowed ← gets (λ s. group_permitted s gid auth_did "add")
  raise_if (not allowed) (errorf "caller lacks add permission for group %q" (gid ∷ []))
  let body = get_map params "body"
  did ← named_member env body
  add_group_member env gid did (get_str body "role")
  version ← bump_group_state_version gid
  pure (active_reply gid did version)

unfoldable pub group_remove : String → GoMap → Exec Json
group_remove auth_did params = do
  let gid = group_did_from_params params
  raise_if (gid == "") group_did_required
  let did = get_str (get_map params "body") "member_did"
  raise_if (did == "") (invalid "member_did is required")
  allowed ← gets (λ s. group_permitted s gid auth_did "remove")
  raise_if (not allowed) (errorf "caller lacks remove permission for group %q" (gid ∷ []))
  owner ← gets (λ s. owner_did s gid)
  raise_if (did == owner) (errorf "cannot remove the group owner" [])
  delete_member gid did
  version ← bump_group_state_version gid
  pure (
      object (
        ("group_did", str gid)
        ∷ ("member_did", str did)
        ∷ ("group_state_version", nat version)
        ∷ []))

unfoldable pub group_leave : String → GoMap → Exec Json
group_leave auth_did params = do
  let gid = group_did_from_params params
  raise_if (gid == "") group_did_required
  let did = sender_or_claimed auth_did (get_map params "meta")
  delete_member gid did
  version ← bump_group_state_version gid
  pure (
      object (
        ("group_did", str gid)
        ∷ ("leaver_did", str did)
        ∷ ("group_state_version", nat version)
        ∷ []))
