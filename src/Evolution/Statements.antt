-- ===== src/Evolution/Statements.antt =====
-- The SQL statements follow `Evolves`, except the two on handles, which depend on what their
-- handlers have checked.
use mathlib.Core.Option
use anp_server_go.Common.{
  Bool-cases, Option, Option-cases, String, [], ap, arith, eq_iff, false, inl, inr, is_some, none,
  pair_eq, refl, some, string_eq, ℕ, ◌+◌, ◌==◌, ◌∷◌, ◌≡◌,
}
use anp_server_go.Common.Dict.{Dict, insert, lookup, lookup-insert, lookup-update, update}
use anp_server_go.Evolution.{
  Evolves, Evolves-dids, Evolves-groups, Evolves-refl, Evolves-rest, GroupKept, GroupKept-refl,
  KeyKept, RowKept, RowKept-refl, evolution,
}
use anp_server_go.Json.{Fields}
use anp_server_go.Moves.{Moves}
use anp_server_go.Sql.{
  activate_member, delete_member, has_message, increment_event_seq, increment_state_version,
  insert_group, insert_message, rename_member, set_policy, set_profile, upsert_did, upsert_member,
}
use anp_server_go.Store.{Db, GroupRow, Message}

GroupKept-map :
    (o : Option GroupRow) (f : GroupRow → GroupRow)
    → ((r : GroupRow) → GroupKept (some r) (some (f r)))
    → GroupKept o (Option.map f o)
GroupKept-map none f kept = tt
GroupKept-map (some r) f kept = kept r

GroupKept-update :
    (gid j : String) (f : GroupRow → GroupRow) (d : Dict String GroupRow)
    → ((r : GroupRow) → GroupKept (some r) (some (f r)))
    → GroupKept (lookup j d) (lookup j (update gid f d))
GroupKept-update gid j f d kept = rw (lookup-update gid j f d) (elim (Bool-cases (gid == j)) [
  | inl same ↦ rw same (GroupKept-map (lookup j d) f kept)
  | inr other ↦ rw other (GroupKept-refl (lookup j d))
])

update-Evolves :
    (s : Db) (gid : String) (f : GroupRow → GroupRow)
    → ((r : GroupRow) → GroupKept (some r) (some (f r)))
    → Evolves s (record s { groups = update gid f s.groups })
update-Evolves s gid f kept =
    Evolves-groups s (update gid f s.groups) (λ j. GroupKept-update gid j f s.groups kept)

-- A key that is new hides no row.
GroupKept-insert :
    (gid j : String) (r : GroupRow) (d : Dict String GroupRow)
    → is_some (lookup gid d) ≡ false
    → GroupKept (lookup j d) (lookup j (insert gid r d))
GroupKept-insert gid j r d new = rw (lookup-insert gid j r d) (elim (Bool-cases (gid == j)) [
  | inl same ↦ elim (Option-cases (lookup j d)) [
    | inl free ↦ rw free tt
    | inr (v, taken) ↦ absurd (cc (taken, ap (λ k. is_some (lookup k d)) ((eq_iff gid j).0 same)))
  ]
  | inr other ↦ rw other (GroupKept-refl (lookup j d))
])

pub RowKept-insert :
    {V : Type 0} (k j : String) (v : V) (d : Dict String V)
    → is_some (lookup k d) ≡ false
    → RowKept (lookup j d) (lookup j (insert k v d))
RowKept-insert k j v d new = rw (lookup-insert k j v d) (elim (Bool-cases (k == j)) [
  | inl same ↦ elim (Option-cases (lookup j d)) [
    | inl free ↦ rw free tt
    | inr (w, taken) ↦ absurd (cc (taken, ap (λ i. is_some (lookup i d)) ((eq_iff k j).0 same)))
  ]
  | inr other ↦ rw other (RowKept-refl (lookup j d))
])

KeyKept-insert :
    (did j : String) (v : Fields) (d : Dict String Fields)
    → KeyKept (lookup j d) (lookup j (insert did v d))
KeyKept-insert did j v d = ground (arith, lookup-insert did j v d)

pub upsert_did-Moves : (did : String) (doc : Fields) → Moves evolution (upsert_did did doc)
unfolding upsert_did
upsert_did-Moves did doc = record {
  at = λ s.
      Evolves-dids s (insert did doc s.registered_dids)
        (λ j. KeyKept-insert did j doc s.registered_dids);
}

insert_message-Evolves : (m : Message) (s : Db) → Evolves s (insert_message m s).1
unfolding insert_message
insert_message-Evolves m s = elim (Bool-cases (has_message m.message_id s.messages)) [
  | inl taken ↦ rw taken (Evolves-refl s)
  | inr free ↦ rw free (
      let r = Evolves-refl s in
      record {
        handles = r.handles;
        groups = r.groups;
        messages = ((s.last_id + 1, m) ∷ [], refl);
        last_id = omega arith;
        dids = r.dids;
        tickets = r.tickets;
        responses = r.responses;
      })
]

pub insert_message-Evolution : (m : Message) → Moves evolution (insert_message m)
insert_message-Evolution m = record { at = insert_message-Evolves m }

insert_group-Evolves :
    (gid : String) (row : GroupRow) (s : Db) → Evolves s (insert_group gid row s).1
unfolding insert_group
insert_group-Evolves gid row s = elim (Bool-cases (is_some (lookup gid s.groups))) [
  | inl taken ↦ rw taken (Evolves-refl s)
  | inr free ↦
      rw free
        (Evolves-groups s (insert gid row s.groups) (λ j. GroupKept-insert gid j row s.groups free))
]

pub insert_group-Evolution :
    (gid : String) (row : GroupRow) → Moves evolution (insert_group gid row)
insert_group-Evolution gid row = record { at = insert_group-Evolves gid row }

module _ (gid : String) where
  pub increment_state_version-Evolution : Moves evolution (increment_state_version gid)
  unfolding increment_state_version
  increment_state_version-Evolution = record {
    at = λ s. update-Evolves s gid _ (λ r. (refl, refl, omega arith, omega arith));
  }

  pub increment_event_seq-Evolution : Moves evolution (increment_event_seq gid)
  unfolding increment_event_seq
  increment_event_seq-Evolution = record {
    at = λ s. update-Evolves s gid _ (λ r. (refl, refl, omega arith, omega arith));
  }

  pub set_profile-Evolution : (profile : Fields) → Moves evolution (set_profile gid profile)
  unfolding set_profile
  set_profile-Evolution profile = record {
    at = λ s. update-Evolves s gid _ (λ r. (refl, refl, omega arith, omega arith));
  }

  pub set_policy-Evolution : (policy : Fields) → Moves evolution (set_policy gid policy)
  unfolding set_policy
  set_policy-Evolution policy = record {
    at = λ s. update-Evolves s gid _ (λ r. (refl, refl, omega arith, omega arith));
  }

  pub upsert_member-Evolution :
      (did role : String) (now : ℕ) → Moves evolution (upsert_member gid did role now)
  unfolding upsert_member
  upsert_member-Evolution did role now = record { at = λ s. Evolves-rest s }

  pub activate_member-Evolution :
      (did : String) (now : ℕ) → Moves evolution (activate_member gid did now)
  unfolding activate_member
  activate_member-Evolution did now = record { at = λ s. Evolves-rest s }

  pub delete_member-Evolution : (did : String) → Moves evolution (delete_member gid did)
  unfolding delete_member
  delete_member-Evolution did = record { at = λ s. Evolves-rest s }

  rename_member-Evolves : (old new : String) (s : Db) → Evolves s (rename_member gid old new s).1
  unfolding rename_member
  rename_member-Evolves old new s = elim (Option-cases (lookup (gid, old) s.group_members)) [
    | inl gone ↦ rw (gone, rename_member) (Evolves-refl s)
    | inr (m, found) ↦
        rw (found, rename_member)
          (elim (Bool-cases (old == new)) [
            | inl same ↦ rw same (Evolves-refl s)
            | inr other ↦
                rw other (elim (Bool-cases (is_some (lookup (gid, new) s.group_members))) [
                  | inl taken ↦ rw taken (Evolves-refl s)
                  | inr free ↦ rw free (Evolves-rest s)
                ])
          ])
  ]

  pub rename_member-Evolution : (old new : String) → Moves evolution (rename_member gid old new)
  rename_member-Evolution old new = record { at = rename_member-Evolves old new }
