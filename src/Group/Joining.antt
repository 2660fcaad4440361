-- ===== src/Group/Joining.antt =====
-- group.join of internal/server/group.go and the members that a group has.
use anp_server_go.Common.{
  Bool-cases, Option, String, inl, inr, none, pair_eq, refl, some, string_eq, ℕ, ◌∙◌, ◌≡◌,
}
use anp_server_go.Common.Dict.{lookup, lookup-upsert, or_new}
use anp_server_go.Env.{Env}
use anp_server_go.Group.Membership.{group_join, join_again, join_anew, join_group_member}
use anp_server_go.Group.Reads.{bump_group_state_version, group_state_version, load_group}
use anp_server_go.Json.{GoMap}
use anp_server_go.Moves.{Moves, Preorder, moves_rules}
use anp_server_go.Sql.{activate_member, increment_state_version}
use anp_server_go.Store.{Db, Member}

-- A member keeps the role and the time of joining, and stays active.
abbrev pub MemberKept : Option Member → Option Member → Type 0
MemberKept none after = Unit
MemberKept (some m) none = ⊥
MemberKept (some m) (some m') =
    (m'.role ≡ m.role) × (m'.joined_at ≡ m.joined_at) × (m.status ≡ "active" → m'.status ≡ "active")

MemberKept-refl : (o : Option Member) → MemberKept o o
MemberKept-refl none = tt
MemberKept-refl (some m) = (refl, refl, λ h. h)

MemberKept-trans : (a b c : Option Member) → MemberKept a b → MemberKept b c → MemberKept a c
MemberKept-trans none b c h k = tt
MemberKept-trans (some m) none c h k = absurd h
MemberKept-trans (some m) (some m') none h k = absurd k
MemberKept-trans (some m) (some m') (some m'') h k =
    (k.0 ∙ h.0, k.1 ∙ h.1, λ active. k.2 (h.2 active))

abbrev member_kept : String × String → Preorder
member_kept k = record {
  Rel = λ s t. MemberKept (lookup k s.group_members) (lookup k t.group_members);
  rel_refl = λ s. MemberKept-refl _;
  rel_trans = λ s t u. MemberKept-trans _ (lookup k t.group_members) _;
}

activated :
    (o : Option Member) (new : Member)
    → MemberKept o (some (or_new new (λ m. record m { status = "active" }) o))
activated none new = tt
activated (some m) new = (refl, refl, λ h. refl)

module _ (k : String × String) where
  activate_member-Kept :
      (gid did : String) (now : ℕ) → Moves (member_kept k) (activate_member gid did now)
  unfolding activate_member
  activate_member-Kept gid did now = record {
    at = λ s.
        rw
          (lookup-upsert (gid, did) k
            (record { role = "member"; status = "active"; joined_at = now })
            (λ m. record m { status = "active" }) s.group_members)
          (elim (Bool-cases (pair_eq.beq (gid, did) k)) [
            | inl same ↦ rw same (activated (lookup k s.group_members) _)
            | inr other ↦ rw other (MemberKept-refl _)
          ]);
  }

  increment_state_version-Kept :
      (gid : String) → Moves (member_kept k) (increment_state_version gid)
  unfolding increment_state_version
  increment_state_version-Kept gid = record { at = λ s. MemberKept-refl _ }

  group_join-Kept :
      (env : Env) (caller : String) (params : GoMap)
      → Moves (member_kept k) (group_join env caller params)
  unfolding group_join join_again join_anew join_group_member bump_group_state_version
      group_state_version load_group
  group_join-Kept env caller params =
      search (moves_rules, activate_member-Kept, increment_state_version-Kept) depth 14

-- group.join demotes and removes nobody: every member of every group keeps the role and the time of
-- joining, and an active one stays active, however the request ends.
pub group_join-MemberKept :
    (env : Env) (caller : String) (params : GoMap) (s : Db) (k : String × String)
    → MemberKept
        (lookup k s.group_members)
        (lookup k (group_join env caller params s).1.group_members)
group_join-MemberKept env caller params s k = (group_join-Kept k env caller params).at s
