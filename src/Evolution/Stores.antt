-- ===== src/Evolution/Stores.antt =====
-- The statements on prekeys, packages, attachments and the idempotency cache follow `Evolves`.
use anp_server_go.Common.{Bool, Bool-cases, String, inl, inr, is_some, pair_eq, string_eq, ℕ}
use anp_server_go.Common.Dict.{lookup}
use anp_server_go.Evolution.{Evolves, Evolves-refl, Evolves-rest, evolution}
use anp_server_go.Evolution.Statements.{RowKept-insert}
use anp_server_go.Json.{GoMap, Json}
use anp_server_go.Moves.{Moves}
use anp_server_go.Sql.{
  abort_slot, commit_slot, delete_prekey, insert_prekey, insert_response, insert_slot,
  insert_ticket, trim_prekeys, upsert_bundle, upsert_crypto_state, upsert_key_package,
  upsert_object,
}
use anp_server_go.Store.{CryptoState, Db, KeyPackage, Object, Slot, Ticket}

pub upsert_bundle-Evolution :
    (did : String) (bundle : GoMap) → Moves evolution (upsert_bundle did bundle)
unfolding upsert_bundle
upsert_bundle-Evolution did bundle = record { at = λ s. Evolves-rest s }

pub insert_prekey-Evolution :
    (did : String) (prekey : Json) → Moves evolution (insert_prekey did prekey)
unfolding insert_prekey
insert_prekey-Evolution did prekey = record { at = λ s. Evolves-rest s }

pub trim_prekeys-Evolution : (did : String) → Moves evolution (trim_prekeys did)
unfolding trim_prekeys
trim_prekeys-Evolution did = record { at = λ s. Evolves-rest s }

pub delete_prekey-Evolution :
    (did : String) (same : Json → Bool) → Moves evolution (delete_prekey did same)
unfolding delete_prekey
delete_prekey-Evolution did same = record { at = λ s. Evolves-rest s }

pub upsert_key_package-Evolution :
    (did : String) (pkg : KeyPackage) → Moves evolution (upsert_key_package did pkg)
unfolding upsert_key_package
upsert_key_package-Evolution did pkg = record { at = λ s. Evolves-rest s }

pub upsert_crypto_state-Evolution :
    (gid cid : String) (state : CryptoState) → Moves evolution (upsert_crypto_state gid cid state)
unfolding upsert_crypto_state
upsert_crypto_state-Evolution gid cid state = record { at = λ s. Evolves-rest s }

insert_slot-Evolves : (id : String) (slot : Slot) (s : Db) → Evolves s (insert_slot id slot s).1
unfolding insert_slot
insert_slot-Evolves id slot s = elim (Bool-cases (is_some (lookup id s.attachment_slots))) [
  | inl taken ↦ rw taken (Evolves-refl s)
  | inr free ↦ rw free (Evolves-rest s)
]

pub insert_slot-Evolution : (id : String) (slot : Slot) → Moves evolution (insert_slot id slot)
insert_slot-Evolution id slot = record { at = insert_slot-Evolves id slot }

pub commit_slot-Evolution :
    (id : String) (size : ℕ) (digest : String) → Moves evolution (commit_slot id size digest)
unfolding commit_slot
commit_slot-Evolution id size digest = record { at = λ s. Evolves-rest s }

pub abort_slot-Evolution : (id : String) → Moves evolution (abort_slot id)
unfolding abort_slot
abort_slot-Evolution id = record { at = λ s. Evolves-rest s }

pub upsert_object-Moves :
    (id : String) (stored : Object) → Moves evolution (upsert_object id stored)
unfolding upsert_object
upsert_object-Moves id stored = record { at = λ s. Evolves-rest s }

insert_ticket-Evolves : (t : String) (row : Ticket) (s : Db) → Evolves s (insert_ticket t row s).1
unfolding insert_ticket
insert_ticket-Evolves t row s = elim (Bool-cases (is_some (lookup t s.attachment_tickets))) [
  | inl taken ↦ rw taken (Evolves-refl s)
  | inr free ↦ rw free (
      let r = Evolves-refl s in
      record {
        handles = r.handles;
        groups = r.groups;
        messages = r.messages;
        last_id = r.last_id;
        dids = r.dids;
        tickets = λ j. RowKept-insert t j row s.attachment_tickets free;
        responses = r.responses;
      })
]

pub insert_ticket-Evolution : (t : String) (row : Ticket) → Moves evolution (insert_ticket t row)
insert_ticket-Evolution t row = record { at = insert_ticket-Evolves t row }

insert_response-Evolves : (key : String) (v : Json) (s : Db) → Evolves s (insert_response key v s).1
unfolding insert_response
insert_response-Evolves key v s = elim (Bool-cases (is_some (lookup key s.idempotency))) [
  | inl taken ↦ rw taken (Evolves-refl s)
  | inr free ↦ rw free (
      let r = Evolves-refl s in
      record {
        handles = r.handles;
        groups = r.groups;
        messages = r.messages;
        last_id = r.last_id;
        dids = r.dids;
        tickets = r.tickets;
        responses = λ j. RowKept-insert key j v s.idempotency free;
      })
]

pub insert_response-Evolution : (key : String) (v : Json) → Moves evolution (insert_response key v)
insert_response-Evolution key v = record { at = insert_response-Evolves key v }
