-- ===== src/Direct.antt =====
-- internal/server/e2ee.go: direct messages, and the prekey bundles of their recipients.
pub mod Prekeys
pub mod Proofs
use anp_server_go.Common.{
  Bool, List, Option, String, [], if◌then◌else◌, none, not, pair_eq, some, string_eq, true, ◌&&◌,
  ◌==◌, ◌∷◌,
}
use anp_server_go.Common.Dict.{lookup}
use anp_server_go.Env.{Env, now_sec}
use anp_server_go.Exec.{
  Error, Exec, did_not_found, errorf, gets, invalid, opk_unavailable, or_raise, pure, raise_if,
  rpc_error, ◌>>=◌, ◌>>◌,
}
use anp_server_go.Group.Reads.{classify_payload, sender_or_claimed}
use anp_server_go.Json.{
  GoMap, Json, as_map, bool, get_arr, get_bool, get_map, get_str, map_json, object, str,
}
use anp_server_go.Proof.{verify_attached_proof, verify_origin_proof}
use anp_server_go.Sql.{delete_prekey, insert_message, insert_prekey, trim_prekeys, upsert_bundle}
use anp_server_go.Store.{OneTimePrekey}

abbrev missing_content : Error
missing_content = invalid "body must contain exactly one of text, payload, or payload_b64u"

-- The kind and the text of a plaintext message, whose proof is mandatory.
unfoldable pub plaintext_content : Env → String → GoMap → GoMap → GoMap → Exec (String × String)
plaintext_content env sender meta body auth = do
  content ← or_raise (classify_payload body) missing_content
  present ← or_raise auth (errorf "auth.origin_proof is required for anp.direct.base.v1" [])
  verify_origin_proof env sender "direct.send" meta body (some present)
  pure content

-- Those of an encrypted message, whose proof is checked where there is one and a sender.
unfoldable pub envelope_content : Env → String → GoMap → GoMap → GoMap → Exec (String × String)
envelope_content env sender meta body auth = do
  if sender == "" then pure tt else verify_attached_proof env sender "direct.send" meta body auth
  pure ("text", "")

unfoldable pub is_plaintext : GoMap → Bool
is_plaintext meta =
    get_str meta "profile" == "anp.direct.base.v1"
    && get_str meta "security_profile" == "transport-protected"

unfoldable pub direct_send : Env → String → GoMap → Exec Json
unfolding is_plaintext
direct_send env auth_did params = do
  let meta = get_map params "meta"
  let body = get_map params "body"
  let peer = get_str (get_map meta "target") "did"
  let message_id = get_str meta "message_id"
  let sender = sender_or_claimed auth_did meta
  raise_if (message_id == "") (errorf "message_id is required" [])
  let auth = get_map params "auth"
  content ←
      (if is_plaintext meta
        then plaintext_content env sender meta body auth
        else envelope_content env sender meta body auth)
  insert_message (record {
    message_id = message_id;
    sender_did = sender;
    recipient_did = some peer;
    group_did = none;
    kind = content.0;
    text = content.1;
    secure = not (is_plaintext meta);
    sent_at = now_sec env;
    wire_meta = meta;
    wire_body = body;
  })
  pure (
      object (
        ("accepted", bool true)
        ∷ ("message_id", str message_id)
        ∷ ("operation_id", str (get_str meta "operation_id"))
        ∷ ("target_did", str peer)
        ∷ ("accepted_at", str (env.rfc3339 (now_sec env)))
        ∷ []))

unfoldable pub insert_prekeys : String → List Json → Exec (Unit {0})
insert_prekeys did [] = pure tt
insert_prekeys did (entry ∷ rest) = do insert_prekey did entry; insert_prekeys did rest

-- A batch is appended, and the oldest rows of the owner beyond 100 are dropped.
unfoldable pub store_prekeys : String → Option (List Json) → Exec (Unit {0})
store_prekeys did none = pure tt
store_prekeys did (some entries) = do insert_prekeys did entries; trim_prekeys did

unfoldable pub publish_prekey_bundle : Env → String → GoMap → Exec Json
publish_prekey_bundle env auth_did params = do
  let body = get_map params "body"
  let bundle = get_map body "prekey_bundle"
  let owner = if auth_did == "" then get_str bundle "owner_did" else auth_did
  raise_if (owner == "") (errorf "prekey_bundle.owner_did is required" [])
  upsert_bundle owner bundle
  store_prekeys owner (get_arr body "one_time_prekeys")
  pure (
      object (
        ("published", bool true)
        ∷ ("owner_did", str owner)
        ∷ ("bundle_id", str (get_str bundle "bundle_id"))
        ∷ ("published_at", str (env.rfc3339 (now_sec env)))
        ∷ []))

-- ORDER BY rowid ASC LIMIT 1
unfoldable pub oldest_prekey : String → List OneTimePrekey → Option Json
oldest_prekey did [] = none
oldest_prekey did (k ∷ ks) = if k.owner_did == did then some k.prekey else oldest_prekey did ks

-- The oldest prekey of the DID, which is deleted by its text.
unfoldable pub take_prekey : Env → String → Exec Json
unfolding oldest_prekey
take_prekey env did = do
  oldest ← gets (λ s. oldest_prekey did s.one_time_prekeys)
  prekey ← or_raise oldest (rpc_error opk_unavailable "anp.direct.e2ee.opk_unavailable")
  delete_prekey did (λ other. env.marshal other == env.marshal prekey)
  pure prekey

abbrev bundle_reply : String → GoMap → List (String × Json) → Json
bundle_reply did bundle more =
    object (("target_did", str did) ∷ ("prekey_bundle", map_json bundle) ∷ more)

unfoldable pub with_prekey : Env → String → GoMap → Exec Json
with_prekey env did bundle = do
  prekey ← take_prekey env did
  pure (bundle_reply did bundle (("one_time_prekey", map_json (as_map (some prekey))) ∷ []))

unfoldable pub get_prekey_bundle : Env → GoMap → Exec Json
get_prekey_bundle env params = do
  let body = get_map params "body"
  let did = get_str body "target_did"
  found ← gets (λ s. lookup did s.prekey_bundles)
  bundle ← or_raise found (rpc_error did_not_found "anp.direct.e2ee.bundle_not_found")
  if get_bool body "require_opk"
      then with_prekey env did bundle
      else pure (bundle_reply did bundle [])
