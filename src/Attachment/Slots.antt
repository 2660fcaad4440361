-- ===== src/Attachment/Slots.antt =====
-- internal/server/attachment.go: the upload slots, from create_slot to commit and abort.
use anp_server_go.Common.{
  Bool, List, Option, String, [], concat, false, if◌then◌else◌, leb, length, ltb, none, not,
  pair_eq, some, string_eq, true, ℕ, ◌&&◌, ◌*◌, ◌+◌, ◌-◌, ◌==◌, ◌^◌, ◌||◌, ◌∷◌,
}
use Prim.Native.Char.{code}
use anp_server_go.Common.Dict.{lookup}
use anp_server_go.Env.{Env, now_sec, second}
use anp_server_go.Exec.{
  Error, Exec, commit_token_invalid, digest_mismatch, encryption_policy_violation, errorf, gets,
  object_unavailable, or_raise, pure, raise_if, rpc_error, slot_expired, slot_not_found, ◌>>=◌,
  ◌>>◌,
}
use anp_server_go.GroupE2ee.Packages.{body_of, required_body_string}
use anp_server_go.Json.{Fields, GoMap, Json, bool, get, get_map, get_str, num, obj, object, str}
use anp_server_go.Sql.{abort_slot, commit_slot, insert_slot}
use anp_server_go.Store.{Slot}

-- slotTTL and ticketTTL, in seconds, and maxUploadBytes
abbrev pub slot_ttl : ℕ
slot_ttl = 3600

abbrev pub ticket_ttl : ℕ
ticket_ttl = 300

abbrev pub max_upload_bytes : ℕ
max_upload_bytes = 33554432

-- An int64 that strconv.ParseInt returns.
pub record Int64 : Type 0 where
  pub negative : Bool
  pub magnitude : ℕ

abbrev is_digit : ℕ → Bool
is_digit c = leb b'0' c && leb c b'9'

unfoldable pub digits_from : ℕ → String → Option ℕ
digits_from n String.[] = some n
digits_from n (String.◌∷◌ c s) =
    let rest = digits_from (n * 10 + (code c - b'0')) s in if is_digit (code c) then rest else none

abbrev in_range : Bool → Option ℕ → Option Int64
in_range neg none = none
in_range neg (some n) =
    if ltb n (2 ^ 63) || (neg && leb n (2 ^ 63))
    then some (record { negative = neg && ltb 0 n; magnitude = n })
    else none

abbrev unsigned : Bool → String → Option Int64
unsigned neg s = if s == "" then none else in_range neg (digits_from 0 s)

-- strconv.ParseInt(s, 10, 64)
unfoldable pub parse_int64 : String → Option Int64
unfolding digits_from
parse_int64 String.[] = none
parse_int64 (String.◌∷◌ c s) =
    if leb (code c) b'-' && leb b'-' (code c)
    then unsigned true s
    else if leb (code c) b'+' && leb b'+' (code c)
    then unsigned false s
    else unsigned false (String.◌∷◌ c s)

-- A value of JSON is a text or a float64; the integer cases of the switch do not arise from it.
unfoldable pub size_to_int64 : Option Json → Option Int64
unfolding parse_int64
size_to_int64 (some (str s)) = parse_int64 s
size_to_int64 (some (num v)) =
    if v.negative && (ltb 0 v.whole || ltb 0 v.fraction)
    then none
    else some (record { negative = false; magnitude = v.whole })
size_to_int64 _ = none

-- The declared size is known and is another than the true one.
unfoldable pub size_differs : Option Int64 → ℕ → Bool
size_differs none n = false
size_differs (some d) n = d.negative || ltb d.magnitude n || ltb n d.magnitude

abbrev join_url : String → String → String
join_url base path = if base == "" then path else concat base path

abbrev pub object_unavailable_error : Error
object_unavailable_error = rpc_error object_unavailable "anp.attachment.object_unavailable"

abbrev slot_not_found_error : Error
slot_not_found_error = rpc_error slot_not_found "anp.attachment.slot_not_found"

abbrev policy_violation : Error
policy_violation =
    rpc_error encryption_policy_violation "anp.attachment.encryption_policy_violation"

-- A value bound to a TEXT column.
unfoldable pub bound : Env → Fields → String → Exec (Option String)
bound env body name = do
  or_raise (env.bind_text (get (some body) name)) (errorf "sql: converting argument" [])

abbrev headers_reply : GoMap → List (String × Json)
headers_reply none = []
headers_reply (some h) = ("upload_headers", obj h) ∷ []

unfoldable pub attachment_create_slot : Env → String → String → GoMap → Exec Json
attachment_create_slot env auth_did base params = do
  body ← body_of params
  attachment_id ← required_body_string (some body) "attachment_id"
  profile ← required_body_string (some body) "intended_message_security_profile"
  raise_if
      (not
        (profile == "transport-protected" || profile == "direct-e2ee" || profile == "group-e2ee"))
      policy_violation
  mode ← required_body_string (some body) "object_encryption_mode"
  raise_if (not (mode == "none") && not (mode == "object-e2ee")) policy_violation
  let slot_id = env.random_hex 0 16
  let object_id = env.random_hex 1 16
  let commit_token = env.random_hex 2 24
  let expires_at = now_sec env + slot_ttl
  let base' = if base == "" then env.base_url else base
  let upload_uri = join_url base' (concat "/upload/" slot_id)
  let object_uri = join_url base' (concat "/objects/" object_id)
  size ← bound env body "expected_size"
  mime ← bound env body "mime_type"
  file ← bound env body "filename"
  insert_slot slot_id (record {
    attachment_id = attachment_id;
    object_id = object_id;
    upload_uri = upload_uri;
    object_uri = object_uri;
    commit_token = commit_token;
    status = "created";
    object_encryption_mode = mode;
    expected_size = size;
    mime_type = mime;
    filename = file;
    expected_digest = get_map (some body) "expected_digest";
    actual_size = none;
    actual_digest = none;
    expires_at = expires_at;
    created_at = now_sec env;
    owner_did = auth_did;
  })
  pure (
      object (
        ("attachment_id", str attachment_id)
        ∷ ("slot_id", str slot_id)
        ∷ ("upload_uri", str upload_uri)
        ∷ ("object_uri", str object_uri)
        ∷ ("commit_token", str commit_token)
        ∷ ("expires_at", str (env.rfc3339 expires_at))
        ∷ headers_reply (get_map (some body) "upload_headers")))

unfoldable pub load_slot : String → Exec Slot
load_slot slot_id = do
  or_raise (← gets (λ s. lookup slot_id s.attachment_slots)) slot_not_found_error

-- time.Now().UTC().After(t), for a t of whole seconds
unfoldable pub is_past : Env → ℕ → Bool
is_past env t = ltb (t * second) env.now

abbrev digest_mismatch_error : Error
digest_mismatch_error = rpc_error digest_mismatch "anp.attachment.digest_mismatch"

-- The declared digest, where one is declared, is no SHA-256 digest or another one.
unfoldable pub digest_differs : Env → GoMap → List ℕ → Bool
digest_differs env none content = false
digest_differs env (some d) content =
    let alg = get_str (some d) "alg" in
    let value = get_str (some d) "value_b64u" in
    (not (alg == "") && not (alg == "sha-256"))
    || (not (value == "") && not (value == env.sha256_b64u content))

unfoldable pub attachment_commit_object : Env → GoMap → Exec Json
attachment_commit_object env params = do
  body ← body_of params
  attachment_id ← required_body_string (some body) "attachment_id"
  slot_id ← required_body_string (some body) "slot_id"
  token ← required_body_string (some body) "commit_token"
  slot ← load_slot slot_id
  raise_if (not (slot.attachment_id == attachment_id)) slot_not_found_error
  raise_if (not (slot.commit_token == token))
      (rpc_error commit_token_invalid "anp.attachment.commit_token_invalid")
  raise_if (not (slot.status == "created")) object_unavailable_error
  raise_if (is_past env slot.expires_at) (rpc_error slot_expired "anp.attachment.slot_expired")
  found ← gets (λ s. lookup slot.object_id s.attachment_objects)
  stored ← or_raise found object_unavailable_error
  raise_if (size_differs (size_to_int64 (get (some body) "size")) (length stored.content))
      digest_mismatch_error
  raise_if (digest_differs env (get_map (some body) "digest") stored.content) digest_mismatch_error
  commit_slot slot_id (length stored.content) stored.digest
  pure (
      object (
        ("committed", bool true)
        ∷ ("attachment_id", str attachment_id)
        ∷ ("object_uri", str slot.object_uri)
        ∷ ("committed_at", str (env.rfc3339 (now_sec env)))
        ∷ []))

unfoldable pub attachment_abort_object : Env → GoMap → Exec Json
attachment_abort_object env params = do
  body ← body_of params
  attachment_id ← required_body_string (some body) "attachment_id"
  slot_id ← required_body_string (some body) "slot_id"
  slot ← load_slot slot_id
  raise_if (not (slot.attachment_id == attachment_id)) slot_not_found_error
  abort_slot slot_id
  pure (
      object (
        ("aborted", bool true)
        ∷ ("attachment_id", str attachment_id)
        ∷ ("aborted_at", str (env.rfc3339 (now_sec env)))
        ∷ []))
