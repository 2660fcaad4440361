-- ===== src/Frame.antt =====
-- What the statements of the handlers leave alone: the DID documents and the cached responses.
use anp_server_go.Common.{
  Bool-cases, Option-cases, String, inl, inr, is_some, pair_eq, refl, string_eq, ◌==◌, ◌∙◌, ◌≡◌,
}
use anp_server_go.Common.Dict.{Dict, lookup}
use anp_server_go.Handle.{handle_recover, handle_register}
use anp_server_go.Json.{Fields, Json}
use anp_server_go.Moves.{Moves, Preorder, moves_rules}
use anp_server_go.Sql.{
  abort_slot, activate_member, commit_slot, delete_member, delete_prekey, has_message,
  increment_event_seq, increment_state_version, insert_group, insert_message, insert_prekey,
  insert_slot, insert_ticket, rename_member, set_policy, set_profile, trim_prekeys, update_handle,
  upsert_bundle, upsert_crypto_state, upsert_handle, upsert_key_package, upsert_member,
}
use anp_server_go.Store.{Db, GroupRow, Message, Slot, Ticket}
use anp_server_go.Writes.{Writes}
use anp_server_go.Writes.Dispatch.{Bindings}

-- Two databases that a reading of the documents and the responses cannot tell apart.
abbrev pub frame : {X : Type 0} → (Dict String Fields → Dict String Json → X) → Preorder
frame π = record {
  Rel = λ s t. π t.registered_dids t.idempotency ≡ π s.registered_dids s.idempotency;
  rel_refl = λ s. refl;
  rel_trans = λ s t u h k. k ∙ h;
}

module _ {X : Type 0} (π : Dict String Fields → Dict String Json → X) where
  insert_message-Frame : (m : Message) → Moves (frame π) (insert_message m)
  unfolding insert_message
  insert_message-Frame m = record {
    at = λ s. elim (Bool-cases (has_message m.message_id s.messages)) [
      | inl taken ↦ rw taken refl
      | inr free ↦ rw free refl
    ];
  }

  insert_group-Frame : (gid : String) (row : GroupRow) → Moves (frame π) (insert_group gid row)
  unfolding insert_group
  insert_group-Frame gid row = record {
    at = λ s. elim (Bool-cases (is_some (lookup gid s.groups))) [
      | inl taken ↦ rw taken refl
      | inr free ↦ rw free refl
    ];
  }

  insert_slot-Frame : (id : String) (slot : Slot) → Moves (frame π) (insert_slot id slot)
  unfolding insert_slot
  insert_slot-Frame id slot = record {
    at = λ s. elim (Bool-cases (is_some (lookup id s.attachment_slots))) [
      | inl taken ↦ rw taken refl
      | inr free ↦ rw free refl
    ];
  }

  insert_ticket-Frame : (id : String) (row : Ticket) → Moves (frame π) (insert_ticket id row)
  unfolding insert_ticket
  insert_ticket-Frame id row = record {
    at = λ s. elim (Bool-cases (is_some (lookup id s.attachment_tickets))) [
      | inl taken ↦ rw taken refl
      | inr free ↦ rw free refl
    ];
  }

  rename_member-Rel :
      (gid old new : String) (s : Db) → (frame π).Rel s (rename_member gid old new s).1
  unfolding rename_member
  rename_member-Rel gid old new s = elim (Option-cases (lookup (gid, old) s.group_members)) [
    | inl gone ↦ rw (gone, rename_member) refl
    | inr (m, found) ↦
        rw (found, rename_member)
          (elim (Bool-cases (old == new)) [
            | inl same ↦ rw same refl
            | inr other ↦
                rw other (elim (Bool-cases (is_some (lookup (gid, new) s.group_members))) [
                  | inl taken ↦ rw taken refl
                  | inr free ↦ rw free refl
                ])
          ])
  ]

  rename_member-Frame : (gid old new : String) → Moves (frame π) (rename_member gid old new)
  rename_member-Frame gid old new = record { at = rename_member-Rel gid old new }

  pub frame-Writes : Writes (frame π)
  unfolding increment_state_version increment_event_seq set_profile set_policy upsert_member
      activate_member delete_member upsert_bundle insert_prekey trim_prekeys delete_prekey
      upsert_key_package upsert_crypto_state commit_slot abort_slot
  frame-Writes = record {
    insert_message_moves = insert_message-Frame;
    insert_group_moves = insert_group-Frame;
    increment_state_version_moves = λ gid. record { at = λ s. refl };
    increment_event_seq_moves = λ gid. record { at = λ s. refl };
    set_profile_moves = λ gid profile. record { at = λ s. refl };
    set_policy_moves = λ gid policy. record { at = λ s. refl };
    upsert_member_moves = λ gid did role now. record { at = λ s. refl };
    activate_member_moves = λ gid did now. record { at = λ s. refl };
    delete_member_moves = λ gid did. record { at = λ s. refl };
    rename_member_moves = rename_member-Frame;
    upsert_bundle_moves = λ did bundle. record { at = λ s. refl };
    insert_prekey_moves = λ did prekey. record { at = λ s. refl };
    trim_prekeys_moves = λ did. record { at = λ s. refl };
    delete_prekey_moves = λ did same. record { at = λ s. refl };
    upsert_key_package_moves = λ did pkg. record { at = λ s. refl };
    upsert_crypto_state_moves = λ gid cid state. record { at = λ s. refl };
    insert_slot_moves = insert_slot-Frame;
    commit_slot_moves = λ id size digest. record { at = λ s. refl };
    abort_slot_moves = λ id. record { at = λ s. refl };
    insert_ticket_moves = insert_ticket-Frame;
  }

  upsert_handle-Frame : (handle did : String) → Moves (frame π) (upsert_handle handle did)
  unfolding upsert_handle
  upsert_handle-Frame handle did = record { at = λ s. refl }

  update_handle-Frame : (handle did : String) → Moves (frame π) (update_handle handle did)
  unfolding update_handle
  update_handle-Frame handle did = record { at = λ s. refl }

  pub frame-Bindings : Bindings (frame π)
  unfolding handle_register handle_recover
  frame-Bindings = record {
    register = λ env did params. search (moves_rules, upsert_handle-Frame) depth 10;
    recover = λ did params. search (moves_rules, update_handle-Frame) depth 10;
  }
