-- ===== src/Attachment/Tickets.antt =====
-- internal/server/attachment.go: download tickets, and the data plane PUT /upload and GET /objects.
use anp_server_go.Common.{
  Bool, List, Option, String, [], concat, if◌then◌else◌, length, ltb, none, not, pair_eq, some,
  string_eq, take, ℕ, ◌&&◌, ◌++◌, ◌+◌, ◌==◌, ◌||◌, ◌∷◌,
}
use anp_server_go.Attachment.Slots.{
  Int64, is_past, max_upload_bytes, object_unavailable_error, size_differs, size_to_int64,
  ticket_ttl,
}
use anp_server_go.Common.Dict.{Dict, lookup}
use anp_server_go.Env.{Env, now_sec}
use anp_server_go.Exec.{
  Error, Exec, gets, grant_not_found, or_raise, pure, raise_if, rpc_error, unauthorized, ◌>>=◌,
  ◌>>◌,
}
use anp_server_go.GroupE2ee.Packages.{body_of, required_body_string}
use anp_server_go.Json.{GoMap, Json, fields, get_map, get_str, obj, object, str}
use anp_server_go.Sql.{insert_ticket, upsert_object}
use anp_server_go.Store.{Db, Object, Slot, Ticket}
use anp_server_go.Strings.{ends_with, strip_prefix, trim_last, trim_space}

-- WHERE attachment_id AND object_uri ORDER BY created_at DESC LIMIT 1; of rows that were created in
-- the same second the first in the table is taken.
abbrev pub newer : Slot → Option Slot → Option Slot
newer a none = some a
newer a (some b) = if ltb a.created_at b.created_at then some b else some a

unfoldable pub latest_slot : String → String → Dict String Slot → Option Slot
latest_slot attachment_id uri [] = none
latest_slot attachment_id uri ((_, a) ∷ slots) =
    let rest = latest_slot attachment_id uri slots in
    if a.attachment_id == attachment_id && a.object_uri == uri then newer a rest else rest

abbrev unauthorized_error : Error
unauthorized_error = rpc_error unauthorized "anp.attachment.unauthorized_requester"

abbrev pub optional : String → String → List (String × Json)
optional k v = if v == "" then [] else (k, str v) ∷ []

unfoldable pub attachment_get_download_ticket : Env → String → GoMap → Exec Json
unfolding latest_slot
attachment_get_download_ticket env auth_did params = do
  body ← body_of params
  attachment_id ← required_body_string (some body) "attachment_id"
  uri ← required_body_string (some body) "object_uri"
  requester ← required_body_string (some body) "requester_did"
  let sender = get_str (get_map params "meta") "sender_did"
  raise_if (not (sender == "") && not (requester == sender)) unauthorized_error
  raise_if (not (auth_did == "") && not (requester == auth_did)) unauthorized_error
  message_id ← required_body_string (some body) "message_id"
  profile ← required_body_string (some body) "message_security_profile"
  found ← gets (λ s. latest_slot attachment_id uri s.attachment_slots)
  slot ← or_raise found (rpc_error grant_not_found "anp.attachment.grant_not_found")
  raise_if (not (slot.status == "committed")) object_unavailable_error
  let ticket = env.random_hex 0 32
  let expires_at = now_sec env + ticket_ttl
  let binding = fields (
      ("attachment_id", str attachment_id)
        ∷ ("object_uri", str uri)
        ∷ ("requester_did", str requester)
        ∷ ("message_id", str message_id)
        ∷ ("message_security_profile", str profile)
        ∷ optional "message_target_did" (get_str (some body) "message_target_did")
      ++ optional "group_did" (get_str (some body) "group_did"))
  insert_ticket ticket (record { binding = binding; expires_at = expires_at })
  pure (
      object (
        ("download_ticket_b64u", str ticket)
        ∷ ("expires_at", str (env.rfc3339 expires_at))
        ∷ ("ticket_binding", obj binding)
        ∷ []))

unfoldable pub object_uri_matches : String → String → Bool
unfolding ends_with trim_last
object_uri_matches uri object_id =
    uri == concat "/objects/" object_id
    || ends_with uri (concat "/objects/" object_id)
    || ends_with (trim_last b'/' uri) (concat "/" object_id)

-- A reply of the data plane: a status with the code of writeDataError, or what was done.
pub data Reply : Type 0 where
  data_error : ℕ → String → Reply
  uploaded : ℕ → Reply
  object_bytes : List ℕ → Reply

-- io.LimitReader(r.Body, maxUploadBytes+1)
unfoldable pub limited : ℕ → List ℕ → List ℕ
limited n bytes = take n bytes

abbrev pub expected : Option String → Option Int64
expected none = none
expected (some s) = size_to_int64 (some (str s))

unfoldable pub store_upload : Env → Slot → List ℕ → Db → Reply × Db
store_upload env slot bytes s =
    if ltb max_upload_bytes (length bytes)
    then (data_error 413 "anp.attachment.object_too_large", s)
    else if size_differs (expected slot.expected_size) (length bytes)
    then (data_error 413 "anp.attachment.object_too_large", s)
    else (
      uploaded (length bytes),
      (upsert_object slot.object_id (record { content = bytes; digest = env.sha256_b64u bytes })
          s).1,
    )

-- PUT /upload/{slot_id}; the body is none where reading it fails.
unfoldable pub handle_upload : Env → String → Option (List ℕ) → Db → Reply × Db
unfolding store_upload limited
handle_upload env slot_id body s = elim (lookup slot_id s.attachment_slots) [
  | none ↦ (data_error 404 "anp.attachment.slot_not_found", s)
  | some slot ↦
      if not (slot.status == "created")
      then (data_error 409 "anp.attachment.object_unavailable", s)
      else if is_past env slot.expires_at
      then (data_error 410 "anp.attachment.slot_expired", s)
      else elim body [
        | none ↦ (data_error 400 "anp.attachment.object_unavailable", s)
        | some bytes ↦ store_upload env slot (limited (max_upload_bytes + 1) bytes) s
      ]
]

abbrev pub object_reply : Option Object → Reply
object_reply none = data_error 404 "anp.attachment.object_unavailable"
object_reply (some stored) = object_bytes stored.content

-- What a ticket that was found answers for an object.
unfoldable pub redeem : Env → String → Ticket → Db → Reply
unfolding object_uri_matches
redeem env object_id ticket s =
    let uri = get_str (some ticket.binding) "object_uri" in
    if is_past env ticket.expires_at
    then data_error 401 "anp.attachment.ticket_expired"
    else if uri == ""
    then data_error 401 "anp.attachment.download_ticket_invalid"
    else if not (object_uri_matches uri object_id)
    then data_error 403 "anp.attachment.ticket_binding_mismatch"
    else object_reply (lookup object_id s.attachment_objects)

abbrev pub redeem_found : Env → String → Option Ticket → Db → Reply
redeem_found env object_id none s = data_error 401 "anp.attachment.download_ticket_invalid"
redeem_found env object_id (some ticket) s = redeem env object_id ticket s

abbrev pub redeem_text : Env → String → Option String → Db → Reply
redeem_text env object_id none s = data_error 401 "anp.attachment.download_ticket_invalid"
redeem_text env object_id (some rest) s =
    redeem_found env object_id (lookup (trim_space rest) s.attachment_tickets) s

-- GET /objects/{object_id} with the Authorization header; it writes nothing.
unfoldable pub handle_download : Env → String → String → Db → Reply
unfolding redeem
handle_download env object_id authz s = redeem_text env object_id (strip_prefix "Bearer " authz) s
