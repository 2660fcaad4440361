-- ===== src/GroupE2ee/States.antt =====
-- internal/server/group_e2ee.go: create, add and remove, which store the crypto state of a group.
use anp_server_go.Common.{List, String, [], not, some, true, ◌&&◌, ◌++◌, ◌==◌, ◌∷◌}
use anp_server_go.Env.{Env, now_sec}
use anp_server_go.Exec.{
  Exec, e2ee_invalid_key_package, invalid, or_raise, pure, raise_if, rpc_error, ◌>>=◌, ◌>>◌,
}
use anp_server_go.GroupE2ee.Packages.{
  body_of, group_e2ee_group_did, require_all, require_owner, required_body_string,
}
use anp_server_go.Json.{
  Fields, GoMap, Json, any_json, bool, fields, get, get_map, get_str, obj, object, str,
}
use anp_server_go.Sql.{upsert_crypto_state}

unfoldable pub store_e2ee_state : Env → String → String → String → Fields → Exec (Unit {0})
store_e2ee_state env gid cid epoch state =
    upsert_crypto_state gid cid (record { epoch = epoch; state = state; updated_at = now_sec env })

-- The group of the request, which the caller must own.
unfoldable pub owned_group : String → Fields → Exec String
owned_group auth_did body = do
  let gid = group_e2ee_group_did (some body)
  raise_if (gid == "") (invalid "group_did is required")
  require_owner gid auth_did
  pure gid

abbrev state_ref : Fields → Exec Fields
state_ref body =
    or_raise (get_map (some body) "group_state_ref") (invalid "group_state_ref is required")

abbrev raw : Fields → String → String × Json
raw body f = (f, any_json (get (some body) f))

-- The fields that every state and every reply begin with.
abbrev common : String → String → String → Fields → List (String × Json)
common gid cid epoch ref =
    ("group_did", str gid)
    ∷ ("crypto_group_id_b64u", str cid)
    ∷ ("epoch", str epoch)
    ∷ ("group_state_ref", obj ref)
    ∷ []

abbrev accepted_at : Env → String × Json
accepted_at env = ("accepted_at", str (env.rfc3339 (now_sec env)))

unfoldable pub group_e2ee_create : Env → String → GoMap → Exec Json
group_e2ee_create env auth_did params = do
  body ← body_of params
  gid ← owned_group auth_did body
  ref ← state_ref body
  required_body_string (some body) "suite"
  creator ←
      or_raise (get_map (some body) "creator_key_package")
        (invalid "creator_key_package is required")
  cid ← required_body_string (some body) "crypto_group_id_b64u"
  epoch ← required_body_string (some body) "epoch"
  let claimed = get_str (some creator) "owner_did"
  raise_if (not (claimed == "") && not (auth_did == "") && not (claimed == auth_did))
      (rpc_error e2ee_invalid_key_package "creator_key_package.owner_did does not match sender")
  store_e2ee_state env gid cid epoch (
      fields
        (common gid cid epoch ref ++ ("creator_key_package", obj creator) ∷ raw body "suite" ∷ []))
  pure (object (("created", bool true) ∷ common gid cid epoch ref ++ accepted_at env ∷ []))

unfoldable pub group_e2ee_add : Env → String → GoMap → Exec Json
group_e2ee_add env auth_did params = do
  body ← body_of params
  gid ← owned_group auth_did body
  member ← required_body_string (some body) "member_did"
  ref ← state_ref body
  cid ← required_body_string (some body) "crypto_group_id_b64u"
  epoch ← required_body_string (some body) "epoch"
  require_all (some body) ("commit_b64u" ∷ "welcome_b64u" ∷ "ratchet_tree_b64u" ∷ [])
  required_body_string (get_map (some body) "group_key_package") "mls_key_package_b64u"
  store_e2ee_state env gid cid epoch (
      fields (
        common gid cid epoch ref
        ++ ("member_did", str member)
          ∷ raw body "commit_b64u"
          ∷ raw body "welcome_b64u"
          ∷ raw body "ratchet_tree_b64u"
          ∷ raw body "group_key_package"
          ∷ []))
  pure (
      object (
        ("accepted", bool true) ∷ ("member_did", str member) ∷ common gid cid epoch ref
        ++ accepted_at env ∷ []))

unfoldable pub group_e2ee_remove : Env → String → GoMap → Exec Json
group_e2ee_remove env auth_did params = do
  body ← body_of params
  gid ← owned_group auth_did body
  member ← required_body_string (some body) "member_did"
  ref ← state_ref body
  cid ← required_body_string (some body) "crypto_group_id_b64u"
  epoch ← required_body_string (some body) "epoch"
  required_body_string (some body) "commit_b64u"
  store_e2ee_state env gid cid epoch (
      fields (common gid cid epoch ref ++ ("member_did", str member) ∷ raw body "commit_b64u" ∷ []))
  pure (
      object (
        ("accepted", bool true) ∷ ("member_did", str member) ∷ common gid cid epoch ref
        ++ accepted_at env ∷ []))
