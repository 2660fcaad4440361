-- ===== src/GroupE2ee/Packages.antt =====
-- internal/server/group_e2ee.go: the fields of its requests, and the key packages.
use anp_server_go.Common.{
  List, String, [], if◌then◌else◌, not, pair_eq, some, string_eq, true, ◌==◌, ◌∷◌,
}
use anp_server_go.Common.Dict.{lookup}
use anp_server_go.Env.{Env, now_sec}
use anp_server_go.Exec.{
  Exec, e2ee_controller_required, e2ee_key_package_not_found, errorf, gets, invalid, invalid_params,
  or_raise, pure, raise_if, rpc_error, ◌>>=◌, ◌>>◌,
}
use anp_server_go.Group.Reads.{group_member_role}
use anp_server_go.Json.{Fields, GoMap, Json, bool, get_map, get_str, obj, object, set_field, str}
use anp_server_go.Sql.{upsert_key_package}

unfoldable pub required_body_string : GoMap → String → Exec String
required_body_string body name = do
  raise_if (get_str body name == "")
      (record { code = invalid_params; format = "%s is required"; args = name ∷ [] })
  pure (get_str body name)

-- The loop over the names of fields that must be present.
unfoldable pub require_all : GoMap → List String → Exec (Unit {0})
require_all body [] = pure tt
require_all body (f ∷ fs) = do required_body_string body f; require_all body fs

abbrev pub body_of : GoMap → Exec Fields
body_of params = or_raise (get_map params "body") (invalid "body is required")

-- `body.group_did`, or `body.group_state_ref.group_did`
unfoldable pub group_e2ee_group_did : GoMap → String
group_e2ee_group_did body =
    let gid = get_str body "group_did" in
    if gid == "" then get_str (get_map body "group_state_ref") "group_did" else gid

unfoldable pub require_owner : String → String → Exec (Unit {0})
require_owner gid auth_did = do
  raise_if (auth_did == "") (errorf "caller identity is required" [])
  role ← gets (λ s. group_member_role s gid auth_did)
  raise_if (not (role == "owner"))
      (rpc_error e2ee_controller_required "group.e2ee.controller_required")

unfoldable pub publish_key_package : Env → String → GoMap → Exec Json
publish_key_package env auth_did params = do
  body ← body_of params
  pkg ← or_raise (get_map (some body) "group_key_package") (invalid "group_key_package is required")
  let owner = if auth_did == "" then get_str (some pkg) "owner_did" else auth_did
  raise_if (owner == "") (invalid "group_key_package.owner_did is required")
  package_id ← required_body_string (some pkg) "key_package_id"
  required_body_string (some pkg) "mls_key_package_b64u"
  upsert_key_package owner (record {
    key_package = set_field "owner_did" (str owner) pkg;
    key_package_id = package_id;
    published_at = now_sec env;
  })
  pure (
      object (
        ("published", bool true)
        ∷ ("owner_did", str owner)
        ∷ ("key_package_id", str package_id)
        ∷ ("published_at", str (env.rfc3339 (now_sec env)))
        ∷ []))

unfoldable pub get_key_package : GoMap → Exec Json
get_key_package params = do
  did ← required_body_string (get_map params "body") "target_did"
  found ← gets (λ s. lookup did s.group_key_packages)
  pkg ← or_raise found (rpc_error e2ee_key_package_not_found "group.e2ee.key_package_not_found")
  pure (object (("target_did", str did) ∷ ("group_key_package", obj pkg.key_package) ∷ []))
