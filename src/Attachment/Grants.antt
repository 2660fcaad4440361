-- ===== src/Attachment/Grants.antt =====
-- How attachment.get_download_ticket of internal/server/attachment.go ends.
use anp_server_go.Common.{
  All, List, String, [], none, pair_eq, some, string_eq, true, ◌++◌, ◌+◌, ◌==◌, ◌||◌, ◌∷◌, ◌≡◌,
}
use anp_server_go.Attachment.Newest.{IsNewest}
use anp_server_go.Attachment.Slots.{ticket_ttl}
use anp_server_go.Attachment.Tickets.{optional}
use anp_server_go.Common.Dict.{insert, lookup}
use anp_server_go.Ends.{Ends}
use anp_server_go.Env.{Env, now_sec}
use anp_server_go.Exec.{Exec, Result, err, ok}
use anp_server_go.Json.{Fields, GoMap, Json, as_map, fields, get, get_map, get_str, obj, str}
use anp_server_go.Store.{Db, Slot, Ticket}

-- The texts of a request that its ticket is bound to. The last two may be missing.
abbrev pub bound_names : List String
bound_names =
    "attachment_id" ∷ "object_uri" ∷ "requester_did" ∷ "message_id" ∷ "message_security_profile"
    ∷ "message_target_did" ∷ "group_did" ∷ []

-- The requester of a body is the one that is given, if one is given.
abbrev pub IsRequestOf : Fields → String → Type 0
IsRequestOf body did = (did == "" || get_str (some body) "requester_did" == did) ≡ true

-- A ticket for a body: it expires after the ticket TTL, and it is bound to the body's texts.
abbrev pub IsTicketFor : Env → Fields → Ticket → Type 0
IsTicketFor env body row =
    (row.expires_at ≡ now_sec env + ticket_ttl)
    × All (λ name. get_str (some row.binding) name ≡ get_str (some body) name) bound_names

-- How attachment.get_download_ticket ends: an error changes nothing; else the requester is the
-- caller and the sender, the object's newest slot is committed, and a ticket for the body is stored
-- under a value that was free and is answered.
abbrev pub Granted : Env → String → GoMap → Db → Result Json × Db → Type 0
Granted env caller params s (err e, t) = t ≡ s
Granted env caller params s (ok v, t) =
    (body : Fields) × (slot : Slot) × (row : Ticket) × (get_map params "body" ≡ some body)
    × IsRequestOf body caller
    × IsRequestOf body (get_str (get_map params "meta") "sender_did")
    × IsNewest (get_str (some body) "attachment_id") (get_str (some body) "object_uri")
        s.attachment_slots slot
    × (slot.status ≡ "committed")
    × (lookup (env.random_hex 0 32) s.attachment_tickets ≡ none)
    × (t ≡ record s { attachment_tickets = insert (env.random_hex 0 32) row s.attachment_tickets })
    × IsTicketFor env body row
    × (get (as_map (some v)) "download_ticket_b64u" ≡ some (str (env.random_hex 0 32)))
    × (get (as_map (some v)) "ticket_binding" ≡ some (obj row.binding))

module _ (a u r m p t g : String) where
  -- The binding of a ticket, text by text.
  abbrev binding : Fields
  binding = fields (
      ("attachment_id", str a)
        ∷ ("object_uri", str u)
        ∷ ("requester_did", str r)
        ∷ ("message_id", str m)
        ∷ ("message_security_profile", str p)
        ∷ optional "message_target_did" t
      ++ optional "group_did" g)
