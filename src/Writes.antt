-- ===== src/Writes.antt =====
-- The statements that the handlers share, as an interface: a preorder that all of them follow. The
-- modules below show that every handler then follows it too, whatever the preorder says. The
-- statements on handles, DID documents and cached responses stand apart.
pub mod Groups
pub mod Handlers
pub mod Messages
pub mod Dispatch
pub mod Entry
use anp_server_go.Common.{Bool, String, ℕ}
use anp_server_go.Json.{Fields, GoMap, Json}
use anp_server_go.Moves.{Moves, Preorder, moves_rules}
use anp_server_go.Sql.{
  abort_slot, activate_member, commit_slot, delete_member, delete_prekey, increment_event_seq,
  increment_state_version, insert_group, insert_message, insert_prekey, insert_slot, insert_ticket,
  rename_member, set_policy, set_profile, trim_prekeys, upsert_bundle, upsert_crypto_state,
  upsert_key_package, upsert_member,
}
use anp_server_go.Store.{CryptoState, GroupRow, KeyPackage, Message, Slot, Ticket}

pub record Writes (p : Preorder) : Type 0 where
  pub insert_message_moves : (m : Message) → Moves p (insert_message m)
  pub insert_group_moves : (gid : String) (row : GroupRow) → Moves p (insert_group gid row)
  pub increment_state_version_moves : (gid : String) → Moves p (increment_state_version gid)
  pub increment_event_seq_moves : (gid : String) → Moves p (increment_event_seq gid)
  pub set_profile_moves : (gid : String) (profile : Fields) → Moves p (set_profile gid profile)
  pub set_policy_moves : (gid : String) (policy : Fields) → Moves p (set_policy gid policy)
  pub upsert_member_moves :
      (gid did role : String) (now : ℕ) → Moves p (upsert_member gid did role now)
  pub activate_member_moves : (gid did : String) (now : ℕ) → Moves p (activate_member gid did now)
  pub delete_member_moves : (gid did : String) → Moves p (delete_member gid did)
  pub rename_member_moves : (gid old new : String) → Moves p (rename_member gid old new)
  pub upsert_bundle_moves : (did : String) (bundle : GoMap) → Moves p (upsert_bundle did bundle)
  pub insert_prekey_moves : (did : String) (prekey : Json) → Moves p (insert_prekey did prekey)
  pub trim_prekeys_moves : (did : String) → Moves p (trim_prekeys did)
  pub delete_prekey_moves : (did : String) (same : Json → Bool) → Moves p (delete_prekey did same)
  pub upsert_key_package_moves :
      (did : String) (pkg : KeyPackage) → Moves p (upsert_key_package did pkg)
  pub upsert_crypto_state_moves :
      (gid cid : String) (state : CryptoState) → Moves p (upsert_crypto_state gid cid state)
  pub insert_slot_moves : (id : String) (slot : Slot) → Moves p (insert_slot id slot)
  pub commit_slot_moves :
      (id : String) (size : ℕ) (digest : String) → Moves p (commit_slot id size digest)
  pub abort_slot_moves : (id : String) → Moves p (abort_slot id)
  pub insert_ticket_moves : (ticket : String) (row : Ticket) → Moves p (insert_ticket ticket row)

module _ {p : Preorder} (w : Writes p) where
  pub insert_message-Moves : (m : Message) → Moves p (insert_message m)
  insert_message-Moves = w.insert_message_moves

  pub insert_group-Moves : (gid : String) (row : GroupRow) → Moves p (insert_group gid row)
  insert_group-Moves = w.insert_group_moves

  pub increment_state_version-Moves : (gid : String) → Moves p (increment_state_version gid)
  increment_state_version-Moves = w.increment_state_version_moves

  pub increment_event_seq-Moves : (gid : String) → Moves p (increment_event_seq gid)
  increment_event_seq-Moves = w.increment_event_seq_moves

  pub set_profile-Moves : (gid : String) (profile : Fields) → Moves p (set_profile gid profile)
  set_profile-Moves = w.set_profile_moves

  pub set_policy-Moves : (gid : String) (policy : Fields) → Moves p (set_policy gid policy)
  set_policy-Moves = w.set_policy_moves

  pub upsert_member-Moves :
      (gid did role : String) (now : ℕ) → Moves p (upsert_member gid did role now)
  upsert_member-Moves = w.upsert_member_moves

  pub activate_member-Moves : (gid did : String) (now : ℕ) → Moves p (activate_member gid did now)
  activate_member-Moves = w.activate_member_moves

  pub delete_member-Moves : (gid did : String) → Moves p (delete_member gid did)
  delete_member-Moves = w.delete_member_moves

  pub rename_member-Moves : (gid old new : String) → Moves p (rename_member gid old new)
  rename_member-Moves = w.rename_member_moves

  pub upsert_bundle-Moves : (did : String) (bundle : GoMap) → Moves p (upsert_bundle did bundle)
  upsert_bundle-Moves = w.upsert_bundle_moves

  pub insert_prekey-Moves : (did : String) (prekey : Json) → Moves p (insert_prekey did prekey)
  insert_prekey-Moves = w.insert_prekey_moves

  pub trim_prekeys-Moves : (did : String) → Moves p (trim_prekeys did)
  trim_prekeys-Moves = w.trim_prekeys_moves

  pub delete_prekey-Moves : (did : String) (same : Json → Bool) → Moves p (delete_prekey did same)
  delete_prekey-Moves = w.delete_prekey_moves

  pub upsert_key_package-Moves :
      (did : String) (pkg : KeyPackage) → Moves p (upsert_key_package did pkg)
  upsert_key_package-Moves = w.upsert_key_package_moves

  pub upsert_crypto_state-Moves :
      (gid cid : String) (state : CryptoState) → Moves p (upsert_crypto_state gid cid state)
  upsert_crypto_state-Moves = w.upsert_crypto_state_moves

  pub insert_slot-Moves : (id : String) (slot : Slot) → Moves p (insert_slot id slot)
  insert_slot-Moves = w.insert_slot_moves

  pub commit_slot-Moves :
      (id : String) (size : ℕ) (digest : String) → Moves p (commit_slot id size digest)
  commit_slot-Moves = w.commit_slot_moves

  pub abort_slot-Moves : (id : String) → Moves p (abort_slot id)
  abort_slot-Moves = w.abort_slot_moves

  pub insert_ticket-Moves : (ticket : String) (row : Ticket) → Moves p (insert_ticket ticket row)
  insert_ticket-Moves = w.insert_ticket_moves

pub ruleset write_rules = (
  moves_rules, insert_message-Moves, insert_group-Moves, increment_state_version-Moves,
  increment_event_seq-Moves, set_profile-Moves, set_policy-Moves, upsert_member-Moves,
  activate_member-Moves, delete_member-Moves, rename_member-Moves, upsert_bundle-Moves,
  insert_prekey-Moves, trim_prekeys-Moves, delete_prekey-Moves, upsert_key_package-Moves,
  upsert_crypto_state-Moves, insert_slot-Moves, commit_slot-Moves, abort_slot-Moves,
  insert_ticket-Moves,
)
