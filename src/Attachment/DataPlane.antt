-- ===== src/Attachment/DataPlane.antt =====
-- How uploads and downloads of internal/server/attachment.go end.
use anp_server_go.Common.{
  Bool, Bool-cases, List, Option, Option-cases, String, [], ap, arith, eq_iff, false, if◌then◌else◌,
  inl, inr, length, ltb, none, pair_eq, refl, some, string_eq, suc, sym, take, true, zero, ℕ, ◌+◌,
  ◌==◌, ◌∷◌, ◌≡◌, ◌≤◌,
}
use mathlib.Core.Path.{subst}
use anp_server_go.Attachment.Slots.{is_past, max_upload_bytes, size_differs}
use anp_server_go.Attachment.Tickets.{
  Reply, expected, handle_download, handle_upload, limited, object_bytes, object_reply,
  object_uri_matches, redeem, redeem_found, redeem_text, store_upload, uploaded,
}
use anp_server_go.Common.Dict.{lookup, lookup-insert}
use anp_server_go.Ends.{positive}
use anp_server_go.Env.{Env}
use anp_server_go.Json.{get_str}
use anp_server_go.Sql.{upsert_object}
use anp_server_go.Store.{Db, Object, Slot, Ticket}
use anp_server_go.Strings.{strip_prefix, trim_space}

-- The header carries a ticket that is known and has not expired and that names this object, and the
-- object is stored with these bytes.
abbrev pub Grants : Env → String → String → Db → List ℕ → Type 0
Grants env object_id authz s bytes =
    (token : String) × (ticket : Ticket) × (stored : Object) × (strip_prefix "Bearer " authz
      ≡ some token)
    × (lookup (trim_space token) s.attachment_tickets ≡ some ticket)
    × (is_past env ticket.expires_at ≡ false)
    × ((get_str (some ticket.binding) "object_uri" == "") ≡ false)
    × (object_uri_matches (get_str (some ticket.binding) "object_uri") object_id ≡ true)
    × (lookup object_id s.attachment_objects ≡ some stored)
    × (stored.content ≡ bytes)

-- The bytes that a reply carries.
abbrev pub bytes_of : Reply → Option (List ℕ)
bytes_of (object_bytes bytes) = some bytes
bytes_of _ = none

if_bytes :
    (b : Bool) (x y : Reply) (bytes : List ℕ)
    → bytes_of x ≡ none
    → bytes_of (if b then x else y) ≡ some bytes
    → (b ≡ false) × (bytes_of y ≡ some bytes)
if_bytes true x y bytes failed h = cc
if_bytes false x y bytes failed h = (refl, h)

object_reply_bytes :
    (stored : Option Object) (bytes : List ℕ)
    → bytes_of (object_reply stored) ≡ some bytes
    → (o : Object) × (stored ≡ some o) × (o.content ≡ bytes)
object_reply_bytes none bytes h = cc
object_reply_bytes (some o) bytes h = (o, refl, cc)

module _ (env : Env) (object_id authz : String) (s : Db) (bytes : List ℕ) where
  redeem_bytes :
      (token : String) (ticket : Ticket)
      → strip_prefix "Bearer " authz ≡ some token
      → lookup (trim_space token) s.attachment_tickets ≡ some ticket
      → bytes_of (redeem env object_id ticket s) ≡ some bytes
      → Grants env object_id authz s bytes
  unfolding redeem
  redeem_bytes token ticket bearer known h =
      let (early, h1) = if_bytes _ _ _ bytes refl h in
      let (named, h2) = if_bytes _ _ _ bytes refl h1 in
      let (same, h3) = if_bytes _ _ _ bytes refl h2 in
      let (o, found, content) = object_reply_bytes _ bytes h3 in
      (token, ticket, o, bearer, known, early, named, positive same, found, content)

  redeem_found_bytes :
      (token : String) (ticket : Option Ticket)
      → strip_prefix "Bearer " authz ≡ some token
      → lookup (trim_space token) s.attachment_tickets ≡ ticket
      → bytes_of (redeem_found env object_id ticket s) ≡ some bytes
      → Grants env object_id authz s bytes
  redeem_found_bytes token none bearer known h = cc
  redeem_found_bytes token (some ticket) bearer known h = redeem_bytes token ticket bearer known h

  redeem_text_bytes :
      (rest : Option String)
      → strip_prefix "Bearer " authz ≡ rest
      → bytes_of (redeem_text env object_id rest s) ≡ some bytes
      → Grants env object_id authz s bytes
  redeem_text_bytes none bearer h = cc
  redeem_text_bytes (some token) bearer h = redeem_found_bytes token _ bearer refl h

-- A download that is answered with bytes has a ticket that the server has stored, that has not
-- expired and whose binding names the object, and the bytes are those stored for the object.
pub handle_download-Grants :
    (env : Env) (object_id authz : String) (s : Db) (bytes : List ℕ)
    → handle_download env object_id authz s ≡ object_bytes bytes
    → Grants env object_id authz s bytes
unfolding handle_download
handle_download-Grants env object_id authz s bytes h =
    redeem_text_bytes env object_id authz s bytes _ refl (ap bytes_of h)

-- What an upload has done: nothing but an error, or the slot was found, it is new and has not
-- expired, its object now has the bytes of the body, of which there are no more than the limit and
-- as many as the slot expects, with their digest, and the other objects are as they were.
abbrev pub Uploads : Env → String → Option (List ℕ) → Db → Reply × Db → Type 0
Uploads env slot_id body s (uploaded n, t) =
    (slot : Slot) × (bytes : List ℕ) × (lookup slot_id s.attachment_slots ≡ some slot)
    × (body ≡ some bytes)
    × (slot.status ≡ "created")
    × (is_past env slot.expires_at ≡ false)
    × (n ≡ length bytes)
    × (length bytes ≤ max_upload_bytes)
    × (size_differs (expected slot.expected_size) (length bytes) ≡ false)
    × (t.attachment_slots ≡ s.attachment_slots)
    × ((id : String)
        → lookup id t.attachment_objects ≡ (
            if slot.object_id == id
            then some (record { content = bytes; digest = env.sha256_b64u bytes })
            else lookup id s.attachment_objects))
Uploads env slot_id body s (_, t) = t ≡ s

ltb_next : (m n : ℕ) → ltb m n ≡ false → ltb n (m + 1) ≡ true
ltb_next m n h = ground arith

-- A prefix that is shorter than asked is the whole list.
take-short : {A : Type 0} (n : ℕ) (xs : List A) → ltb (length (take n xs)) n ≡ true → take n xs ≡ xs
take-short zero xs h = ground arith
take-short (suc n) [] h = refl
take-short (suc n) (x ∷ xs) h = ap (λ ys. x ∷ ys) (take-short n xs (ground arith))

module _ (env : Env) (slot_id : String) (slot : Slot) (bytes : List ℕ) (s : Db)
    (found : lookup slot_id s.attachment_slots ≡ some slot) (fresh : slot.status ≡ "created")
    (early : is_past env slot.expires_at ≡ false) where
  store_upload-Uploads :
      ltb max_upload_bytes (length bytes) ≡ false
      → Uploads env slot_id (some bytes) s (store_upload env slot bytes s)
  unfolding store_upload upsert_object
  store_upload-Uploads fits =
      elim (Bool-cases (size_differs (expected slot.expected_size) (length bytes))) [
        | inl other ↦ rw (fits, store_upload) (rw other refl)
        | inr same ↦
            rw (fits, store_upload)
              (rw same (
                slot,
                bytes,
                found,
                refl,
                fresh,
                early,
                refl,
                ground arith,
                same,
                refl,
                λ id. lookup-insert slot.object_id id _ s.attachment_objects,
              ))
      ]

  limited-Uploads :
      Uploads env slot_id
        (some bytes)
        s
        (store_upload env slot (limited (max_upload_bytes + 1) bytes) s)
  unfolding store_upload limited
  limited-Uploads =
      elim (Bool-cases (ltb max_upload_bytes (length (take (max_upload_bytes + 1) bytes)))) [
        | inl large ↦ rw (large, store_upload) refl
        | inr fits ↦
            let whole =
              take-short (max_upload_bytes + 1) bytes (ltb_next max_upload_bytes _ fits) in
            subst (λ b. Uploads env slot_id (some bytes) s (store_upload env slot b s)) (sym whole)
              (store_upload-Uploads
                (subst (λ b. ltb max_upload_bytes (length b) ≡ false) whole fits))
      ]

found-Uploads :
    (env : Env) (slot_id : String) (body : Option (List ℕ)) (s : Db) (slot : Slot)
    → lookup slot_id s.attachment_slots ≡ some slot
    → Uploads env slot_id body s (handle_upload env slot_id body s)
unfolding handle_upload
found-Uploads env slot_id body s slot found = elim (Bool-cases (slot.status == "created")) [
  | inl fresh ↦ elim (Bool-cases (is_past env slot.expires_at)) [
    | inl late ↦ rw (found, handle_upload) (rw fresh (rw late refl))
    | inr early ↦ elim body as (λ b. Uploads env slot_id b s (handle_upload env slot_id b s)) [
      | none ↦ rw (found, handle_upload) (rw fresh (rw early refl))
      | some bytes ↦
          rw (found, handle_upload)
            (rw fresh (
              rw early (
                limited-Uploads env slot_id slot bytes s found ((eq_iff _ "created").0 fresh)
                  early)))
    ]
  ]
  | inr used ↦ rw (found, handle_upload) (rw used refl)
]

-- An upload that is refused changes nothing. One that is accepted is for a slot that is new and
-- has not expired, its body is no larger than the limit and as large as the slot expects where it
-- expects a size, and the
-- slot's object, and no other, is then stored as the whole body with its digest.
pub handle_upload-Uploads :
    (env : Env) (slot_id : String) (body : Option (List ℕ)) (s : Db)
    → Uploads env slot_id body s (handle_upload env slot_id body s)
unfolding handle_upload
handle_upload-Uploads env slot_id body s = elim (Option-cases (lookup slot_id s.attachment_slots)) [
  | inl gone ↦ rw (gone, handle_upload) refl
  | inr (slot, found) ↦ found-Uploads env slot_id body s slot found
]
