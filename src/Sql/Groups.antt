-- ===== src/Sql/Groups.antt =====
-- Statements on groups, group_members, messages, handles and registered_dids.
use anp_server_go.Common.{
  Bool, List, String, [], false, if◌then◌else◌, is_some, none, pair_eq, some, string_eq, ℕ, ◌+◌,
  ◌==◌, ◌||◌, ◌∷◌,
}
use anp_server_go.Common.Dict.{erase, insert, lookup, update, upsert}
use anp_server_go.Exec.{Exec, err, errorf, modify, ok}
use anp_server_go.Json.{Fields}
use anp_server_go.Store.{GroupRow, Message}

unfoldable pub upsert_did : String → Fields → Exec (Unit {0})
unfolding modify
upsert_did did doc = modify λ s. record s { registered_dids = insert did doc s.registered_dids }

-- `handles` keeps no column but the DID that a handler reads.
unfoldable pub upsert_handle : String → String → Exec (Unit {0})
unfolding modify
upsert_handle handle did = modify λ s. record s { handles = insert handle did s.handles }

unfoldable pub update_handle : String → String → Exec (Unit {0})
unfolding modify
update_handle handle did = modify λ s. record s { handles = update handle (λ _. did) s.handles }

abbrev pub has_message : String → List (ℕ × Message) → Bool
has_message mid [] = false
has_message mid ((_, m) ∷ ms) = m.message_id == mid || has_message mid ms

-- message_id is UNIQUE, and the row gets the next id of the AUTOINCREMENT key.
unfoldable pub insert_message : Message → Exec (Unit {0})
insert_message m s =
    if has_message m.message_id s.messages
    then (err (errorf "UNIQUE constraint failed: messages.message_id" []), s)
    else (ok tt, record s { messages = (s.last_id + 1, m) ∷ s.messages; last_id = s.last_id + 1 })

unfoldable pub insert_group : String → GroupRow → Exec (Unit {0})
insert_group gid row s =
    if is_some (lookup gid s.groups)
    then (err (errorf "UNIQUE constraint failed: groups.group_did" []), s)
    else (ok tt, record s { groups = insert gid row s.groups })

unfoldable pub increment_state_version : String → Exec (Unit {0})
unfolding modify
increment_state_version gid = modify λ s. record s {
  groups = update gid (λ r. record r { group_state_version = r.group_state_version + 1 }) s.groups;
}

unfoldable pub increment_event_seq : String → Exec (Unit {0})
unfolding modify
increment_event_seq gid = modify λ s. record s {
  groups = update gid (λ r. record r { group_event_seq = r.group_event_seq + 1 }) s.groups;
}

unfoldable pub set_profile : String → Fields → Exec (Unit {0})
unfolding modify
set_profile gid profile =
    modify λ s. record s {
      groups = update gid (λ r. record r { group_profile = some profile }) s.groups;
    }

unfoldable pub set_policy : String → Fields → Exec (Unit {0})
unfolding modify
set_policy gid policy =
    modify λ s. record s { groups = update gid (λ r. record r { group_policy = policy }) s.groups }

unfoldable pub upsert_member : String → String → String → ℕ → Exec (Unit {0})
unfolding modify
upsert_member gid did role now = modify λ s. record s {
  group_members =
      upsert (gid, did) (record { role = role; status = "active"; joined_at = now })
        (λ m. record m { role = role; status = "active" }) s.group_members;
}

unfoldable pub activate_member : String → String → ℕ → Exec (Unit {0})
unfolding modify
activate_member gid did now = modify λ s. record s {
  group_members =
      upsert (gid, did) (record { role = "member"; status = "active"; joined_at = now })
        (λ m. record m { status = "active" }) s.group_members;
}

unfoldable pub delete_member : String → String → Exec (Unit {0})
unfolding modify
delete_member gid did = modify λ s. record s { group_members = erase (gid, did) s.group_members }

-- UPDATE … SET member_did: the row moves to another key, which must be free.
unfoldable pub rename_member : String → String → String → Exec (Unit {0})
rename_member gid old new s = elim (lookup (gid, old) s.group_members) [
  | none ↦ (ok tt, s)
  | some m ↦
      if old == new
      then (ok tt, s)
      else if is_some (lookup (gid, new) s.group_members)
      then (
        err (
            errorf "UNIQUE constraint failed: group_members.group_did, group_members.member_did"
              []),
        s,
      )
      else (
        ok tt,
        record s { group_members = insert (gid, new) m (erase (gid, old) s.group_members) },
      )
]
