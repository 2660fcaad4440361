-- ===== src/Group/Updates.antt =====
-- internal/server/group.go: the profile and the policy of a group, its description, and the
-- rebinding of a membership.
use anp_server_go.Common.{
  List, Option, String, [], if◌then◌else◌, length, map, none, not, pair_eq, some, str_leb,
  string_eq, ◌&&◌, ◌++◌, ◌==◌, ◌||◌, ◌∷◌,
}
use anp_server_go.Common.Dict.{Dict, lookup}
use anp_server_go.Env.{Env}
use anp_server_go.Exec.{Error, Exec, errorf, gets, invalid, or_raise, pure, raise_if, ◌>>=◌, ◌>>◌}
use anp_server_go.Group.Membership.{group_did_required}
use anp_server_go.Group.Reads.{
  bump_group_state_version, group_did_from_params, group_permitted, load_group,
}
use anp_server_go.Json.{
  Fields, GoMap, Json, any_json, arr, delete_field, end, field, get, get_bool, get_map, get_str,
  items, map_json, nat, null, obj, object, set_field, str,
}
use anp_server_go.Sql.{rename_member, set_policy, set_profile}
use anp_server_go.Store.{Db, GroupRow, Member}

-- The loop over a patch: a null deletes its key, any other value replaces the key's.
unfoldable pub merge_patch : Fields → Fields → Fields
merge_patch end old = old
merge_patch (field k null fs) old = merge_patch fs (delete_field k old)
merge_patch (field k v fs) old = merge_patch fs (set_field k v old)

abbrev or_empty : GoMap → Fields
or_empty none = end
or_empty (some fs) = fs

-- The fields that an update stores: the patched old ones, or the ones of the request.
unfoldable pub updated : String → (GroupRow → Fields) → GoMap → GoMap → Error → Exec Fields
updated gid old (some patch) full missing = do r ← load_group gid; pure (merge_patch patch (old r))
updated gid old none full missing = or_raise full missing

unfoldable pub group_update_profile : String → GoMap → Exec Json
group_update_profile auth_did params = do
  let gid = group_did_from_params params
  raise_if (gid == "") group_did_required
  allowed ← gets (λ s. group_permitted s gid auth_did "update_profile")
  raise_if (not allowed) (errorf "caller lacks update_profile permission for group %q" (gid ∷ []))
  let body = get_map params "body"
  profile ←
      updated gid (λ r. or_empty r.group_profile) (get_map body "group_profile_patch")
        (get_map body "group_profile") (invalid "group_profile is required")
  set_profile gid profile
  version ← bump_group_state_version gid
  pure (
      object (
        ("group_did", str gid)
        ∷ ("group_state_version", nat version)
        ∷ ("group_profile", obj profile)
        ∷ []))

unfoldable pub group_update_policy : String → GoMap → Exec Json
group_update_policy auth_did params = do
  let gid = group_did_from_params params
  raise_if (gid == "") group_did_required
  allowed ← gets (λ s. group_permitted s gid auth_did "update_policy")
  raise_if (not allowed) (errorf "caller lacks update_policy permission for group %q" (gid ∷ []))
  let body = get_map params "body"
  policy ←
      updated gid (λ r. r.group_policy) (get_map body "group_policy_patch")
        (get_map body "group_policy") (invalid "group_policy is required")
  set_policy gid policy
  version ← bump_group_state_version gid
  pure (
      object (
        ("group_did", str gid)
        ∷ ("group_state_version", nat version)
        ∷ ("group_policy", obj policy)
        ∷ []))

-- ORDER BY member_did
unfoldable pub insert_by_did : String → Member → List (String × Member) → List (String × Member)
insert_by_did did m [] = (did, m) ∷ []
insert_by_did did m ((d, n) ∷ ms) =
    if str_leb did d then (did, m) ∷ (d, n) ∷ ms else (d, n) ∷ insert_by_did did m ms

unfoldable pub active_members : String → Dict (String × String) Member → List (String × Member)
unfolding insert_by_did
active_members gid [] = []
active_members gid (((g, did), m) ∷ ms) =
    let rest = active_members gid ms in
    if g == gid && m.status == "active" then insert_by_did did m rest else rest

abbrev member_json : Env → String × Member → Json
member_json env (did, m) = object (
    ("agent_did", str did)
    ∷ ("role", str m.role)
    ∷ ("status", str m.status)
    ∷ ("joined_at", str (env.rfc3339 m.joined_at))
    ∷ [])

unfoldable pub group_member_list : Env → Db → String → List Json
unfolding active_members
group_member_list env s gid = map (member_json env) (active_members gid s.group_members)

unfoldable pub group_get_info : Env → GoMap → Exec Json
unfolding group_member_list
group_get_info env params = do
  let gid = group_did_from_params params
  raise_if (gid == "") group_did_required
  r ← load_group gid
  let body = get_map params "body"
  members ← gets (λ s. group_member_list env s gid)
  pure (
      object (
        ("group_did", str gid)
          ∷ ("group_state_version", nat r.group_state_version)
          ∷ ("group_profile", map_json r.group_profile)
          ∷ (if get_bool body "include_policy"
              then ("group_policy", obj r.group_policy) ∷ []
              else [])
        ++ (if get_bool body "include_member_list"
            then ("member_list", arr (items members))
              ∷ ("member_count", str (env.decimal (length members)))
              ∷ []
            else [])))

-- The groups in which a DID is an active member.
unfoldable pub groups_of : String → Dict (String × String) Member → List String
groups_of did [] = []
groups_of did (((g, d), m) ∷ ms) =
    let rest = groups_of did ms in if d == did && m.status == "active" then g ∷ rest else rest

abbrev only_one : List String → Option String
only_one (g ∷ []) = some g
only_one _ = none

-- The group of a rebinding: the request's, or the only one of the previous member.
unfoldable pub rebind_target : GoMap → String → Exec String
unfolding groups_of
rebind_target params previous = do
  let gid = group_did_from_params params
  found ← gets (λ s. only_one (groups_of previous s.group_members))
  if gid == ""
      then or_raise found (errorf "cannot determine target group for member %q" (previous ∷ []))
      else pure gid

unfoldable pub group_rebind_member : String → GoMap → Exec Json
unfolding rebind_target
group_rebind_member auth_did params = do
  let body = get_map params "body"
  let handle = get_str body "member_handle"
  let previous = get_str body "previous_member_did"
  let new = get_str body "new_member_did"
  raise_if (handle == "" || previous == "" || new == "")
      (invalid "member_handle, previous_member_did and new_member_did are required")
  gid ← rebind_target params previous
  raise_if (not (auth_did == "") && not (auth_did == new))
      (errorf "caller %q does not match new_member_did %q" (auth_did ∷ new ∷ []))
  existing ← gets (λ s. lookup (gid, previous) s.group_members)
  or_raise existing (errorf "previous member %q not found in group" (previous ∷ []))
  rename_member gid previous new
  version ← bump_group_state_version gid
  pure (
      object (
        ("group_did", str gid)
        ∷ ("member_handle", str handle)
        ∷ ("previous_member_did", str previous)
        ∷ ("member_did", str new)
        ∷ ("handle_binding_generation", any_json (get body "handle_binding_generation"))
        ∷ ("membership_status", str "active")
        ∷ ("group_state_version", nat version)
        ∷ []))
