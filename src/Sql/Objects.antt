-- ===== src/Sql/Objects.antt =====
-- Statements on the key packages, prekeys, attachments and the idempotency cache.
use anp_server_go.Common.{
  Bool, List, String, [], filter, if◌then◌else◌, is_some, length, ltb, not, pair_eq, some,
  string_eq, ℕ, ◌&&◌, ◌++◌, ◌+◌, ◌==◌, ◌∷◌,
}
use anp_server_go.Common.Dict.{insert, lookup, update}
use anp_server_go.Exec.{Exec, err, errorf, modify, ok}
use anp_server_go.Json.{GoMap, Json, object}
use anp_server_go.Store.{CryptoState, KeyPackage, Object, OneTimePrekey, Slot, Ticket}

unfoldable pub upsert_bundle : String → GoMap → Exec (Unit {0})
unfolding modify
upsert_bundle did bundle =
    modify λ s. record s { prekey_bundles = insert did bundle s.prekey_bundles }

-- The rowid is one more than the largest in the table.
abbrev pub next_rowid : List OneTimePrekey → ℕ
next_rowid [] = 1
next_rowid (k ∷ []) = k.rowid + 1
next_rowid (_ ∷ k ∷ ks) = next_rowid (k ∷ ks)

unfoldable pub insert_prekey : String → Json → Exec (Unit {0})
unfolding modify
insert_prekey did prekey = modify λ s. record s {
  one_time_prekeys =
      s.one_time_prekeys
      ++ record { rowid = next_rowid s.one_time_prekeys; owner_did = did; prekey = prekey } ∷ [];
}

abbrev pub prekeys_of : String → List OneTimePrekey → List OneTimePrekey
prekeys_of did = filter (λ k. k.owner_did == did)

-- Drops the rows of the owner that have `kept` later rows of the owner behind them.
abbrev pub keep_freshest : ℕ → String → List OneTimePrekey → List OneTimePrekey
keep_freshest kept did [] = []
keep_freshest kept did (k ∷ ks) =
    let rest = keep_freshest kept did ks in
    if k.owner_did == did && not (ltb (length (prekeys_of did ks)) kept) then rest else k ∷ rest

unfoldable pub trim_prekeys : String → Exec (Unit {0})
unfolding modify
trim_prekeys did =
    modify λ s. record s { one_time_prekeys = keep_freshest 100 did s.one_time_prekeys }

-- Deletes by owner and text; `same` compares the texts.
unfoldable pub delete_prekey : String → (Json → Bool) → Exec (Unit {0})
unfolding modify
delete_prekey did same = modify λ s. record s {
  one_time_prekeys = filter (λ k. not (k.owner_did == did && same k.prekey)) s.one_time_prekeys;
}

unfoldable pub upsert_key_package : String → KeyPackage → Exec (Unit {0})
unfolding modify
upsert_key_package did pkg =
    modify λ s. record s { group_key_packages = insert did pkg s.group_key_packages }

unfoldable pub upsert_crypto_state : String → String → CryptoState → Exec (Unit {0})
unfolding modify
upsert_crypto_state gid cid state =
    modify λ s. record s { group_e2ee_states = insert (gid, cid) state s.group_e2ee_states }

unfoldable pub insert_slot : String → Slot → Exec (Unit {0})
insert_slot slot_id slot s =
    if is_some (lookup slot_id s.attachment_slots)
    then (err (errorf "UNIQUE constraint failed: attachment_slots.slot_id" []), s)
    else (ok tt, record s { attachment_slots = insert slot_id slot s.attachment_slots })

unfoldable pub commit_slot : String → ℕ → String → Exec (Unit {0})
unfolding modify
commit_slot slot_id size digest = modify λ s. record s {
  attachment_slots =
      update slot_id
        (λ a. record a {
          status = "committed";
          actual_size = some size;
          actual_digest = some digest;
        })
        s.attachment_slots;
}

unfoldable pub abort_slot : String → Exec (Unit {0})
unfolding modify
abort_slot slot_id = modify λ s. record s {
  attachment_slots = update slot_id (λ a. record a { status = "aborted" }) s.attachment_slots;
}

unfoldable pub upsert_object : String → Object → Exec (Unit {0})
unfolding modify
upsert_object object_id object =
    modify λ s. record s { attachment_objects = insert object_id object s.attachment_objects }

unfoldable pub insert_ticket : String → Ticket → Exec (Unit {0})
insert_ticket ticket row s =
    if is_some (lookup ticket s.attachment_tickets)
    then (err (errorf "UNIQUE constraint failed: attachment_tickets.ticket_b64u" []), s)
    else (ok tt, record s { attachment_tickets = insert ticket row s.attachment_tickets })

-- ON CONFLICT DO NOTHING
unfoldable pub insert_response : String → Json → Exec (Unit {0})
insert_response key response s =
    if is_some (lookup key s.idempotency)
    then (ok tt, s)
    else (ok tt, record s { idempotency = insert key response s.idempotency })
