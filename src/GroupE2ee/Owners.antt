-- ===== src/GroupE2ee/Owners.antt =====
-- Who calls the handlers on crypto states in internal/server/group_e2ee.go.
use anp_server_go.Common.{
  Bool-cases, List, String, [], eq_iff, false, inl, inr, pair_eq, refl, some, string_eq, sym, true,
  ◌==◌, ◌∙◌, ◌∷◌, ◌≡◌,
}
use mathlib.Core.Bool.{false≢true}
use mathlib.Core.Path.{subst}
use anp_server_go.Common.Dict.{lookup, lookup-insert}
use anp_server_go.Common.Tests.{pair_beq}
use anp_server_go.Ends.{
  Ends, Ends-bind, Ends-gets, Ends-or_raise, Ends-pure, Ends-raise_if, err_ok, ok_inj, raise_if_ok,
}
use anp_server_go.Env.{Env}
use anp_server_go.Exec.{Exec, Result, ok, ◌>>=◌}
use anp_server_go.Group.Reads.{group_member_role}
use anp_server_go.GroupE2ee.Packages.{
  group_e2ee_group_did, require_all, require_owner, required_body_string,
}
use anp_server_go.GroupE2ee.States.{
  group_e2ee_add, group_e2ee_create, group_e2ee_remove, owned_group, store_e2ee_state,
}
use anp_server_go.Json.{Fields, GoMap, Json}
use anp_server_go.Moves.{Moves, Moves-bind, Moves-pure, Preorder, moves_rules}
use anp_server_go.Sql.{upsert_crypto_state}
use anp_server_go.Store.{Db}

-- The crypto states of a group stay.
abbrev states_kept : String → Preorder
states_kept g = record {
  Rel = λ s t.
      (cid : String) → lookup (g, cid) t.group_e2ee_states ≡ lookup (g, cid) s.group_e2ee_states;
  rel_refl = λ s cid. refl;
  rel_trans = λ s t u h k cid. k cid ∙ h cid;
}

module _ {p : Preorder} where
  required_body_string-Moves :
      (body : GoMap) (name : String) → Moves p (required_body_string body name)
  unfolding required_body_string
  required_body_string-Moves body name = search moves_rules

  require_all-Moves : (body : GoMap) (names : List String) → Moves p (require_all body names)
  unfolding require_all
  require_all-Moves body [] = Moves-pure tt
  require_all-Moves body (f ∷ fs) =
      Moves-bind _ _ (required_body_string-Moves body f) (λ _. require_all-Moves body fs)

  owned_group-Moves : (caller : String) (body : Fields) → Moves p (owned_group caller body)
  unfolding owned_group require_owner
  owned_group-Moves caller body = search moves_rules depth 10

-- A caller who passes the check is the owner of the group that it gives.
abbrev Owned : String → Db → Result String × Db → Type 0
Owned caller s (r, t) =
    (gid : String) → r ≡ ok gid → (group_member_role s gid caller == "owner") ≡ true

module _ (env : Env) (g gid : String) (apart : (gid == g) ≡ false) where
  store_e2ee_state-Kept :
      (cid epoch : String) (state : Fields)
      → Moves (states_kept g) (store_e2ee_state env gid cid epoch state)
  unfolding store_e2ee_state upsert_crypto_state pair_beq
  store_e2ee_state-Kept cid epoch state = record {
    at = λ s cid'. rw (lookup-insert (gid, cid) (g, cid') _ s.group_e2ee_states) (rw apart refl);
  }

module _ (caller : String) (s : Db) where
  require_owner-Ends :
      (gid : String)
      → Ends
          (λ r. (u : Unit {0}) → r.0 ≡ ok u → (group_member_role s gid caller == "owner") ≡ true)
          (require_owner gid caller)
          s
  unfolding require_owner
  require_owner-Ends gid =
      Ends-raise_if _ _ _ (λ u. err_ok)
        λ known. Ends-gets _ _ (record { at = λ u h. raise_if_ok _ _ s u h })

  owned_group-Owned : (body : Fields) → Ends (Owned caller s) (owned_group caller body) s
  unfolding owned_group
  owned_group-Owned body =
      Ends-raise_if _ _ _ (λ gid. err_ok)
        λ named.
          Ends-bind _ _ (λ e failed gid. err_ok)
            λ u done. Ends-pure (group_e2ee_group_did (some body)) λ gid e.
              subst (λ x. (group_member_role s x caller == "owner") ≡ true) (ok_inj e)
                ((require_owner-Ends _).at u done)

  apart :
      (gid g : String)
      → (group_member_role s gid caller == "owner") ≡ true
      → (group_member_role s g caller == "owner") ≡ false
      → (gid == g) ≡ false
  apart gid g owned other = elim (Bool-cases (gid == g)) [
    | inl same ↦ absurd (
        false≢true (
          sym other
          ∙ subst (λ x. (group_member_role s x caller == "owner") ≡ true) ((eq_iff gid g).0 same)
              owned))
    | inr differs ↦ differs
  ]

module _ (env : Env) (caller : String) (params : GoMap) (s : Db) (g : String)
    (other : (group_member_role s g caller == "owner") ≡ false) where
  -- Behind the check everything is about another group.
  owned-Kept :
      (body : Fields) (f : String → Exec Json)
      → ((gid : String) → (gid == g) ≡ false → Moves (states_kept g) (f gid))
      → Ends (λ r. (states_kept g).Rel s r.1) (owned_group caller body >>= f) s
  owned-Kept body f rest =
      Ends-bind _ _ (λ e failed. (owned_group-Moves {p = states_kept g} caller body).at s)
        λ gid passed. record {
          at = λ cid.
              (rest gid
                  (apart caller s gid g ((owned_group-Owned caller s body).at gid passed) other)).at
                (owned_group caller body s).1 cid
              ∙ (owned_group-Moves {p = states_kept g} caller body).at s cid;
        }

  create-Kept : Ends (λ r. (states_kept g).Rel s r.1) (group_e2ee_create env caller params) s
  unfolding group_e2ee_create
  create-Kept =
      Ends-or_raise _ _ _ (λ gone cid. refl)
        λ body given. owned-Kept body _ λ gid away.
          search (moves_rules, required_body_string-Moves, store_e2ee_state-Kept env g gid away)
            depth 20

  add-Kept : Ends (λ r. (states_kept g).Rel s r.1) (group_e2ee_add env caller params) s
  unfolding group_e2ee_add
  add-Kept =
      Ends-or_raise _ _ _ (λ gone cid. refl)
        λ body given. owned-Kept body _ λ gid away.
          search
            (
              moves_rules,
              required_body_string-Moves,
              require_all-Moves,
              store_e2ee_state-Kept env g gid away,
            )
            depth 20

  remove-Kept : Ends (λ r. (states_kept g).Rel s r.1) (group_e2ee_remove env caller params) s
  unfolding group_e2ee_remove
  remove-Kept =
      Ends-or_raise _ _ _ (λ gone cid. refl)
        λ body given. owned-Kept body _ λ gid away.
          search (moves_rules, required_body_string-Moves, store_e2ee_state-Kept env g gid away)
            depth 20

-- Every crypto state of a group is after the run what it was before.
abbrev pub KeepsStates : {A : Type 0} → String → Exec A → Db → Type 0
KeepsStates g m s =
    (cid : String) → lookup (g, cid) (m s).1.group_e2ee_states ≡ lookup (g, cid) s.group_e2ee_states

-- Whoever is not the active owner of a group changes none of its crypto states by
-- group.e2ee.create, group.e2ee.add or group.e2ee.remove, whatever the request says.
pub handlers-KeepsStates :
    (env : Env) (caller : String) (params : GoMap) (s : Db) (g : String)
    → (group_member_role s g caller == "owner") ≡ false
    → KeepsStates g (group_e2ee_create env caller params) s
      × KeepsStates g (group_e2ee_add env caller params) s
      × KeepsStates g (group_e2ee_remove env caller params) s
handlers-KeepsStates env caller params s g other = (
  (create-Kept env caller params s g other).at,
  (add-Kept env caller params s g other).at,
  (remove-Kept env caller params s g other).at,
)
