-- ===== src/Group/Removal.antt =====
-- group.remove of internal/server/group.go and the owner of the group.
use anp_server_go.Common.{
  Bool-cases, String, eq_iff, false, inl, inr, pair_eq, refl, some, string_eq, ℕ, ◌==◌, ◌∙◌, ◌≡◌,
}
use mathlib.Core.Path.{subst}
use anp_server_go.Common.Dict.{lookup, lookup-erase}
use anp_server_go.Common.Tests.{pair_beq}
use anp_server_go.Ends.{Ends, Ends-gets, Ends-raise_if}
use anp_server_go.Exec.{pure, ◌>>=◌, ◌>>◌}
use anp_server_go.Group.Membership.{group_remove}
use anp_server_go.Group.Reads.{bump_group_state_version, group_state_version, owner_did}
use anp_server_go.Json.{GoMap, Json}
use anp_server_go.Moves.{Moves, Moves-bind, Moves-pure, Preorder, moves_rules}
use anp_server_go.Sql.{delete_member, increment_state_version}
use anp_server_go.Store.{Db, GroupRow}

-- The row of one member stays.
abbrev pub member_kept : String × String → Preorder
member_kept k = record {
  Rel = λ s t. lookup k t.group_members ≡ lookup k s.group_members;
  rel_refl = λ s. refl;
  rel_trans = λ s t u h k. k ∙ h;
}

module _ (k : String × String) where
  delete_member-Kept :
      (gid did : String)
      → (pair_eq.beq (gid, did) k) ≡ false
      → Moves (member_kept k) (delete_member gid did)
  unfolding delete_member
  delete_member-Kept gid did other = record {
    at = λ s. rw (lookup-erase (gid, did) k s.group_members) (rw other refl);
  }

  increment_state_version-Kept :
      (gid : String) → Moves (member_kept k) (increment_state_version gid)
  unfolding increment_state_version
  increment_state_version-Kept gid = record { at = λ s. refl }

  pub bump_group_state_version-Kept :
      (gid : String) → Moves (member_kept k) (bump_group_state_version gid)
  unfolding bump_group_state_version group_state_version
  bump_group_state_version-Kept gid = search (moves_rules, increment_state_version-Kept)

owner_found :
    (s : Db) (g : String) (r : GroupRow) → lookup g s.groups ≡ some r → owner_did s g ≡ r.owner_did
unfolding owner_did
owner_found s g r found = rw (found, owner_did) refl

module _ (caller : String) (params : GoMap) (s : Db) (g : String) (r : GroupRow)
    (found : lookup g s.groups ≡ some r) where
  another :
      (gid did : String)
      → (did == owner_did s gid) ≡ false
      → pair_eq.beq (gid, did) (g, r.owner_did) ≡ false
  unfolding pair_beq
  another gid did other = elim (Bool-cases (gid == g)) [
    | inl same ↦ rw same (
        subst (λ o. (did == o) ≡ false) (owner_found s g r found)
          (subst (λ x. (did == owner_did s x) ≡ false) ((eq_iff gid g).0 same) other))
    | inr differs ↦ rw differs refl
  ]

  removes :
      (gid did : String) (reply : ℕ → Json)
      → (did == owner_did s gid) ≡ false
      → Moves
          (member_kept (g, r.owner_did))
          (delete_member gid did >> (bump_group_state_version gid >>= λ v. pure (reply v)))
  removes gid did reply other =
      Moves-bind _ _ (delete_member-Kept _ gid did (another gid did other))
        (λ _. Moves-bind _ _ (bump_group_state_version-Kept _ gid) (λ v. Moves-pure _))

  keeps_owner : Ends (λ t. (member_kept (g, r.owner_did)).Rel s t.1) (group_remove caller params) s
  unfolding group_remove
  keeps_owner = Ends-raise_if _ _ _ refl λ a. Ends-raise_if _ _ _ refl λ b. Ends-gets _ _ (
      Ends-raise_if _ _ _ refl λ allowed.
        Ends-gets _ _
          (Ends-raise_if _ _ _ refl λ other. record { at = (removes _ _ _ other).at s }))

-- Nobody removes the owner that a group's row names: in every group this DID's membership is after
-- group.remove what it was before, however the request ends.
pub group_remove_owner :
    (caller : String) (params : GoMap) (s : Db) (g : String) (r : GroupRow)
    → lookup g s.groups ≡ some r
    → lookup (g, r.owner_did) (group_remove caller params s).1.group_members
      ≡ lookup (g, r.owner_did) s.group_members
group_remove_owner caller params s g r found = (keeps_owner caller params s g r found).at
