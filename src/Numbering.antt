-- ===== src/Numbering.antt =====
-- The numbers of the messages, as a preorder for the interface `Writes`.
use anp_server_go.Common.{
  Bool-cases, List, Option-cases, String, [], arith, false, inl, inr, is_some, pair_eq, string_eq,
  ℕ, ◌+◌, ◌<◌, ◌==◌, ◌∷◌, ◌≡◌,
}
use anp_server_go.Common.Dict.{lookup}
use anp_server_go.Did.{did_register_document}
use anp_server_go.Env.{Env, Request}
use anp_server_go.Handle.{handle_recover, handle_register}
use anp_server_go.Json.{Fields, GoMap, Json}
use anp_server_go.Moves.{Moves, Preorder, moves_rules}
use anp_server_go.Rpc.Entry.{serve}
use anp_server_go.Sql.{
  abort_slot, activate_member, commit_slot, delete_member, delete_prekey, has_message,
  increment_event_seq, increment_state_version, insert_group, insert_message, insert_prekey,
  insert_response, insert_slot, insert_ticket, rename_member, set_policy, set_profile, trim_prekeys,
  update_handle, upsert_bundle, upsert_crypto_state, upsert_did, upsert_handle, upsert_key_package,
  upsert_member,
}
use anp_server_go.Store.{Db, GroupRow, Message, Slot, Ticket}
use anp_server_go.Writes.{Writes}
use anp_server_go.Writes.Dispatch.{Bindings}
use anp_server_go.Writes.Entry.{serve-Rel}

-- The ids fall strictly, all of them below a bound.
abbrev pub IsBelow : ℕ → List (ℕ × Message) → Type 0
IsBelow n [] = Unit
IsBelow n ((id, m) ∷ ms) = (id < n) × IsBelow id ms

-- No message id stands twice.
abbrev pub AreUnique : List (ℕ × Message) → Type 0
AreUnique [] = Unit
AreUnique ((id, m) ∷ ms) = (has_message m.message_id ms ≡ false) × AreUnique ms

-- The messages are numbered: their ids fall strictly along the table and are at most the last one
-- that was given out, and their message ids are unique.
abbrev pub IsNumbered : Db → Type 0
IsNumbered s = IsBelow (s.last_id + 1) s.messages × AreUnique s.messages

abbrev pub numbering : Preorder
numbering = record {
  Rel = λ s t. IsNumbered s → IsNumbered t;
  rel_refl = λ s h. h;
  rel_trans = λ s t u h k n. k (h n);
}

insert_message-Numbered : (m : Message) → Moves numbering (insert_message m)
unfolding insert_message
insert_message-Numbered m = record {
  at = λ s. elim (Bool-cases (has_message m.message_id s.messages)) [
    | inl taken ↦ rw taken (λ h. h)
    | inr free ↦ rw free (λ h. ((omega arith, h.0), (free, h.1)))
  ];
}

insert_group-Numbered : (gid : String) (row : GroupRow) → Moves numbering (insert_group gid row)
unfolding insert_group
insert_group-Numbered gid row = record {
  at = λ s. elim (Bool-cases (is_some (lookup gid s.groups))) [
    | inl taken ↦ rw taken (λ h. h)
    | inr free ↦ rw free (λ h. h)
  ];
}

insert_slot-Numbered : (id : String) (slot : Slot) → Moves numbering (insert_slot id slot)
unfolding insert_slot
insert_slot-Numbered id slot = record {
  at = λ s. elim (Bool-cases (is_some (lookup id s.attachment_slots))) [
    | inl taken ↦ rw taken (λ h. h)
    | inr free ↦ rw free (λ h. h)
  ];
}

insert_ticket-Numbered : (id : String) (row : Ticket) → Moves numbering (insert_ticket id row)
unfolding insert_ticket
insert_ticket-Numbered id row = record {
  at = λ s. elim (Bool-cases (is_some (lookup id s.attachment_tickets))) [
    | inl taken ↦ rw taken (λ h. h)
    | inr free ↦ rw free (λ h. h)
  ];
}

rename_member-Rel :
    (gid old new : String) (s : Db) → numbering.Rel s (rename_member gid old new s).1
unfolding rename_member
rename_member-Rel gid old new s = elim (Option-cases (lookup (gid, old) s.group_members)) [
  | inl gone ↦ rw (gone, rename_member) (λ h. h)
  | inr (m, found) ↦
      rw (found, rename_member)
        (elim (Bool-cases (old == new)) [
          | inl same ↦ rw same (λ h. h)
          | inr other ↦ rw other (elim (Bool-cases (is_some (lookup (gid, new) s.group_members))) [
            | inl taken ↦ rw taken (λ h. h)
            | inr free ↦ rw free (λ h. h)
          ])
        ])
]

rename_member-Numbered : (gid old new : String) → Moves numbering (rename_member gid old new)
rename_member-Numbered gid old new = record { at = rename_member-Rel gid old new }

pub numbering-Writes : Writes numbering
unfolding increment_state_version increment_event_seq set_profile set_policy upsert_member
    activate_member delete_member upsert_bundle insert_prekey trim_prekeys delete_prekey
    upsert_key_package upsert_crypto_state commit_slot abort_slot
numbering-Writes = record {
  insert_message_moves = insert_message-Numbered;
  insert_group_moves = insert_group-Numbered;
  increment_state_version_moves = λ gid. record { at = λ s h. h };
  increment_event_seq_moves = λ gid. record { at = λ s h. h };
  set_profile_moves = λ gid profile. record { at = λ s h. h };
  set_policy_moves = λ gid policy. record { at = λ s h. h };
  upsert_member_moves = λ gid did role now. record { at = λ s h. h };
  activate_member_moves = λ gid did now. record { at = λ s h. h };
  delete_member_moves = λ gid did. record { at = λ s h. h };
  rename_member_moves = rename_member-Numbered;
  upsert_bundle_moves = λ did bundle. record { at = λ s h. h };
  insert_prekey_moves = λ did prekey. record { at = λ s h. h };
  trim_prekeys_moves = λ did. record { at = λ s h. h };
  delete_prekey_moves = λ did same. record { at = λ s h. h };
  upsert_key_package_moves = λ did pkg. record { at = λ s h. h };
  upsert_crypto_state_moves = λ gid cid state. record { at = λ s h. h };
  insert_slot_moves = insert_slot-Numbered;
  commit_slot_moves = λ id size digest. record { at = λ s h. h };
  abort_slot_moves = λ id. record { at = λ s h. h };
  insert_ticket_moves = insert_ticket-Numbered;
}

upsert_handle-Numbered : (handle did : String) → Moves numbering (upsert_handle handle did)
unfolding upsert_handle
upsert_handle-Numbered handle did = record { at = λ s h. h }

update_handle-Numbered : (handle did : String) → Moves numbering (update_handle handle did)
unfolding update_handle
update_handle-Numbered handle did = record { at = λ s h. h }

pub numbering-Bindings : Bindings numbering
unfolding handle_register handle_recover
numbering-Bindings = record {
  register = λ env did params. search (moves_rules, upsert_handle-Numbered) depth 10;
  recover = λ did params. search (moves_rules, update_handle-Numbered) depth 10;
}

upsert_did-Numbered : (did : String) (doc : Fields) → Moves numbering (upsert_did did doc)
unfolding upsert_did
upsert_did-Numbered did doc = record { at = λ s h. h }

did_register_document-Numbered : (params : GoMap) → Moves numbering (did_register_document params)
unfolding did_register_document
did_register_document-Numbered params = search (moves_rules, upsert_did-Numbered) depth 10

insert_response-Numbered : (key : String) (v : Json) → Moves numbering (insert_response key v)
unfolding insert_response
insert_response-Numbered key v = record {
  at = λ s. elim (Bool-cases (is_some (lookup key s.idempotency))) [
    | inl taken ↦ rw taken (λ h. h)
    | inr free ↦ rw free (λ h. h)
  ];
}

-- Whatever requests the server handles, the ids of its messages fall strictly along the table and
-- do not pass the last one that was given out, and no message id stands twice, if this holds at the
-- start, as it does for the empty database.
pub serve-IsNumbered :
    (requests : List (Env × Request)) (s : Db) → IsNumbered s → IsNumbered (serve requests s)
serve-IsNumbered =
    serve-Rel numbering-Writes numbering-Bindings insert_response-Numbered
      did_register_document-Numbered
