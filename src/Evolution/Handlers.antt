-- ===== src/Evolution/Handlers.antt =====
-- The handlers that bind handles and DID documents follow `Evolves`.
use mathlib.Core.Option
use anp_server_go.Common.{
  Bool-cases, Option, String, ap, arith, eq_iff, false, if◌then◌else◌, inl, inr, none, not, pair_eq,
  some, string_eq, ◌&&◌, ◌==◌, ◌≡◌,
}
use mathlib.Core.Path.{subst}
use anp_server_go.Common.Dict.{Dict, insert, lookup, lookup-insert, lookup-update, update}
use anp_server_go.Did.{did_register_document}
use anp_server_go.Ends.{Ends, Ends-gets, Ends-or_raise, Ends-raise_if}
use anp_server_go.Env.{Env}
use anp_server_go.Evolution.{
  BindingKept, BindingKept-refl, Evolves, Evolves-handles, Evolves-refl, evolution,
}
use anp_server_go.Evolution.Statements.{upsert_did-Moves}
use anp_server_go.Exec.{pure, ◌>>=◌, ◌>>◌}
use anp_server_go.Handle.{handle_recover, handle_register, or_unbound}
use anp_server_go.Json.{GoMap, Json}
use anp_server_go.Moves.{Moves, moves_rules}
use anp_server_go.Sql.{update_handle, upsert_handle}
use anp_server_go.Store.{Db}

-- A handle that is free, or bound to the same DID already, may be bound.
BindingKept-bind :
    (o : Option String) (did : String)
    → (not (or_unbound o == "") && not (or_unbound o == did)) ≡ false
    → BindingKept o (some did)
BindingKept-bind none did checked = tt
BindingKept-bind (some old) did checked = ground (arith, eq_iff old "", eq_iff old did)

BindingKept-insert :
    (handle j did : String) (d : Dict String String)
    → (not (or_unbound (lookup handle d) == "") && not (or_unbound (lookup handle d) == did))
      ≡ false
    → BindingKept (lookup j d) (lookup j (insert handle did d))
BindingKept-insert handle j did d checked =
    rw (lookup-insert handle j did d) (elim (Bool-cases (handle == j)) [
      | inl same ↦ rw same (
          subst (λ k. BindingKept (lookup k d) (some did)) ((eq_iff handle j).0 same)
            (BindingKept-bind (lookup handle d) did checked))
      | inr other ↦ rw other (BindingKept-refl (lookup j d))
    ])

ends_registered :
    (s : Db) (handle did : String) (reply : Json)
    → (not (or_unbound (lookup handle s.handles) == "")
        && not (or_unbound (lookup handle s.handles) == did))
      ≡ false
    → Ends (λ r. Evolves s r.1) (upsert_handle handle did >> pure reply) s
unfolding upsert_handle ◌>>=◌
ends_registered s handle did reply checked = record {
  at =
      Evolves-handles s (insert handle did s.handles)
        (λ j. BindingKept-insert handle j did s.handles checked);
}

module _ (env : Env) (caller : String) (params : GoMap) where
  handle_register-Evolves :
      (s : Db) → Ends (λ r. Evolves s r.1) (handle_register env caller params) s
  unfolding handle_register
  handle_register-Evolves s = Ends-raise_if _ _ _ (Evolves-refl s) λ _.
      Ends-raise_if _ _ _ (Evolves-refl s) λ _.
        Ends-gets _ _
          (Ends-raise_if _ _ _ (Evolves-refl s) λ checked. ends_registered s _ _ _ checked)

  pub handle_register-Moves : Moves evolution (handle_register env caller params)
  handle_register-Moves = record { at = λ s. (handle_register-Evolves s).at }

BindingKept-update :
    (handle j old new : String) (d : Dict String String)
    → lookup handle d ≡ some old
    → new ≡ old
    → BindingKept (lookup j d) (lookup j (update handle (λ _. new) d))
BindingKept-update handle j old new d found same =
    rw (lookup-update handle j (λ _. new) d) (elim (Bool-cases (handle == j)) [
      | inl here ↦ rw here (
          subst (λ k. BindingKept (lookup k d) (Option.map (λ _. new) (lookup k d)))
            ((eq_iff handle j).0 here) (rw found (λ _. ap some same)))
      | inr other ↦ rw other (BindingKept-refl (lookup j d))
    ])

recovered_same :
    (caller old : String)
    → (not (caller == "") && not (caller == old)) ≡ false
    → (if caller == "" then old else caller) ≡ old
recovered_same caller old checked = ground (arith, eq_iff caller old)

ends_recovered :
    (s : Db) (handle old new : String) (reply : Json)
    → lookup handle s.handles ≡ some old
    → new ≡ old
    → Ends (λ r. Evolves s r.1) (update_handle handle new >> pure reply) s
unfolding update_handle ◌>>=◌
ends_recovered s handle old new reply found same = record {
  at =
      Evolves-handles s (update handle (λ _. new) s.handles)
        (λ j. BindingKept-update handle j old new s.handles found same);
}

handle_recover-Evolves :
    (caller : String) (params : GoMap) (s : Db)
    → Ends (λ r. Evolves s r.1) (handle_recover caller params) s
unfolding handle_recover
handle_recover-Evolves caller params s = Ends-raise_if _ _ _ (Evolves-refl s) λ _. Ends-gets _ _ (
    Ends-or_raise _ _ _ (λ _. Evolves-refl s)
      λ old found.
        Ends-raise_if _ _ _ (Evolves-refl s)
          λ checked. ends_recovered s _ old _ _ found (recovered_same caller old checked))

pub handle_recover-Moves :
    (caller : String) (params : GoMap) → Moves evolution (handle_recover caller params)
handle_recover-Moves caller params = record {
  at = λ s. (handle_recover-Evolves caller params s).at;
}

pub did_register_document-Moves : (params : GoMap) → Moves evolution (did_register_document params)
unfolding did_register_document
did_register_document-Moves params = search (moves_rules, upsert_did-Moves) depth 10
