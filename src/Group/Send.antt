-- ===== src/Group/Send.antt =====
-- internal/server/group.go: group.send, and the two placeholder notifications.
pub mod Delivery
use mathlib.Core.Option
use anp_server_go.Common.{
  Option, String, [], false, if◌then◌else◌, none, not, some, true, ◌==◌, ◌∷◌,
}
use anp_server_go.Env.{Env, now_sec}
use anp_server_go.Exec.{
  Error, Exec, errorf, gets, invalid, invalid_params, or_raise, pure, raise_any, raise_if, ◌>>=◌,
  ◌>>◌,
}
use anp_server_go.Group.Reads.{
  classify_payload, group_did_from_params, group_state_version, is_group_member,
  next_group_event_seq, sender_or_claimed,
}
use anp_server_go.Json.{GoMap, Json, bool, get_map, get_str, nat, object, str}
use anp_server_go.Mentions.{validate_mentions}
use anp_server_go.Proof.{verify_attached_proof}
use anp_server_go.Sql.{insert_message}

-- The group of a message: `meta.target.did`, or what the other group methods read.
unfoldable pub send_target : GoMap → String
send_target params =
    let gid = get_str (get_map (get_map params "meta") "target") "did" in
    if gid == "" then group_did_from_params params else gid

abbrev as_invalid : Error → Error
as_invalid e = record e { code = invalid_params }

-- Mentions are looked at in a payload of the kind "json" alone.
abbrev pub mentions_error : String → GoMap → Option Error
mentions_error kind body =
    if kind == "json"
    then Option.map as_invalid (validate_mentions (get_map body "payload"))
    else none

unfoldable pub group_send : Env → String → GoMap → Exec Json
unfolding send_target
group_send env auth_did params = do
  let meta = get_map params "meta"
  let body = get_map params "body"
  let gid = send_target params
  let message_id = get_str meta "message_id"
  let operation_id = get_str meta "operation_id"
  raise_if (gid == "") (invalid "target.did (group_did) is required")
  raise_if (message_id == "") (invalid "message_id is required")
  raise_if (operation_id == "") (invalid "operation_id is required")
  raise_if (get_str meta "content_type" == "") (invalid "content_type is required")
  let sender = sender_or_claimed auth_did meta
  member ← gets (λ s. is_group_member s gid sender)
  raise_if (not member) (errorf "sender %q is not a member of group %q" (sender ∷ gid ∷ []))
  content ←
      or_raise (classify_payload body)
        (invalid "body must contain exactly one of text, payload, or payload_b64u")
  raise_any (mentions_error content.0 body)
  verify_attached_proof env sender "group.send" meta body (get_map params "auth")
  seq ← next_group_event_seq gid
  version ← group_state_version gid
  insert_message (record {
    message_id = message_id;
    sender_did = sender;
    recipient_did = none;
    group_did = some gid;
    kind = content.0;
    text = content.1;
    secure = false;
    sent_at = now_sec env;
    wire_meta = meta;
    wire_body = body;
  })
  pure (
      object (
        ("accepted", bool true)
        ∷ ("group_did", str gid)
        ∷ ("message_id", str message_id)
        ∷ ("operation_id", str operation_id)
        ∷ ("group_event_seq", nat seq)
        ∷ ("group_state_version", nat version)
        ∷ ("accepted_at", str (env.rfc3339 (now_sec env)))
        ∷ []))

-- groupIncoming, groupStateChanged and e2ee.go's directIncoming: a placeholder answer.
unfoldable pub placeholder : Exec Json
placeholder = pure (object (("accepted", bool true) ∷ []))
