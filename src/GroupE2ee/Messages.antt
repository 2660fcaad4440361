-- ===== src/GroupE2ee/Messages.antt =====
-- internal/server/group_e2ee.go: send, which posts a cipher message, and notice.
use anp_server_go.Common.{
  List, String, [], concat, false, if◌then◌else◌, none, not, some, true, ◌&&◌, ◌==◌, ◌∷◌,
}
use anp_server_go.Env.{Env, now_sec}
use anp_server_go.Exec.{
  Exec, e2ee_notice_unsupported, errorf, gets, ignore, invalid, or_raise, pure, raise_if, rpc_error,
  ◌>>=◌, ◌>>◌,
}
use anp_server_go.Group.Reads.{
  group_state_version, is_group_member, next_group_event_seq, sender_or_claimed,
}
use anp_server_go.GroupE2ee.Packages.{
  body_of, group_e2ee_group_did, require_all, required_body_string,
}
use anp_server_go.Json.{GoMap, Json, bool, get_map, get_str, nat, object, str}
use anp_server_go.Proof.{verify_attached_proof}
use anp_server_go.Sql.{insert_message}
use anp_server_go.Store.{Message}

unfoldable pub cipher_target : GoMap → GoMap → String
cipher_target meta body =
    let gid = get_str (get_map meta "target") "did" in
    if gid == "" then group_e2ee_group_did body else gid

unfoldable pub group_e2ee_send : Env → String → GoMap → Exec Json
group_e2ee_send env auth_did params = do
  let meta = get_map params "meta"
  fields_of_body ← body_of params
  let body : GoMap = some fields_of_body
  let gid = cipher_target meta body
  let message_id = get_str meta "message_id"
  let operation_id = get_str meta "operation_id"
  raise_if (gid == "") (invalid "target.did (group_did) is required")
  raise_if (message_id == "") (invalid "message_id is required")
  raise_if (operation_id == "") (invalid "operation_id is required")
  raise_if (not (get_str meta "content_type" == "application/anp-group-cipher+json"))
      (invalid "content_type must be application/anp-group-cipher+json")
  let sender = sender_or_claimed auth_did meta
  member ← gets (λ s. is_group_member s gid sender)
  raise_if (not member) (errorf "sender %q is not an active member of group %q" (sender ∷ gid ∷ []))
  require_all body ("crypto_group_id_b64u" ∷ "epoch" ∷ "private_message_b64u" ∷ [])
  or_raise (get_map body "group_state_ref") (invalid "group_state_ref is required")
  verify_attached_proof env sender "group.e2ee.send" meta body (get_map params "auth")
  seq ← next_group_event_seq gid
  version ← group_state_version gid
  insert_message (record {
    message_id = message_id;
    sender_did = sender;
    recipient_did = none;
    group_did = some gid;
    kind = "cipher";
    text = "";
    secure = true;
    sent_at = now_sec env;
    wire_meta = meta;
    wire_body = body;
  })
  let at = str (env.rfc3339 (now_sec env))
  pure (
      object (
        ("accepted", bool true)
        ∷ ("group_did", str gid)
        ∷ ("message_id", str message_id)
        ∷ ("operation_id", str operation_id)
        ∷ ("group_event_seq", nat seq)
        ∷ ("group_state_version", nat version)
        ∷ ("accepted_at", at)
        ∷ ("epoch", str (get_str body "epoch"))
        ∷ (
          "group_receipt",
          object (
              ("group_did", str gid)
              ∷ ("group_event_seq", nat seq)
              ∷ ("message_id", str message_id)
              ∷ ("accepted_at", at)
              ∷ []),
        )
        ∷ []))

-- The fields that each type of notice must carry.
abbrev notice_fields : String → List String
notice_fields kind =
    if kind == "commit-delivery"
    then "commit_b64u" ∷ []
    else "welcome_b64u" ∷ "ratchet_tree_b64u" ∷ []

unfoldable pub notice_message : Env → GoMap → GoMap → Message
notice_message env meta body = record {
  message_id = concat "notice-" (env.decimal env.now);
  sender_did = get_str meta "sender_did";
  recipient_did = some (get_str (get_map meta "target") "did");
  group_did = some (get_str body "group_did");
  kind = "notice";
  text = "";
  secure = false;
  sent_at = now_sec env;
  wire_meta = meta;
  wire_body = body;
}

unfoldable pub group_e2ee_notice : Env → GoMap → Exec Json
unfolding notice_message
group_e2ee_notice env params = do
  body ← body_of params
  kind ← required_body_string (some body) "notice_type"
  raise_if (not (kind == "commit-delivery") && not (kind == "welcome-delivery"))
      (rpc_error e2ee_notice_unsupported "group.e2ee.notice_type_unsupported")
  require_all (some body) (notice_fields kind)
  let meta = get_map params "meta"
  if get_str (get_map meta "target") "did" == ""
      then pure tt
      else ignore (insert_message (notice_message env meta (some body)))
  pure (object (("accepted", bool true) ∷ []))
