-- ===== src/Group/Rebinding.antt =====
-- Who calls group.rebind_member in internal/server/group.go.
use anp_server_go.Common.{
  Bool, String, [], arith, eq_refl, false, none, not, pair_eq, refl, some, string_eq, sym, true, ℕ,
  ◌&&◌, ◌==◌, ◌||◌, ◌∙◌, ◌∷◌, ◌≡◌,
}
use anp_server_go.Common.Dict.{beq_refl, erase, insert, lookup, lookup-insert}
use anp_server_go.Ends.{Ends, Ends-gets, Ends-or_raise, some_none}
use anp_server_go.Exec.{Error, Exec, Result, ok, pure, raise_if, ◌>>=◌}
use anp_server_go.Group.Reads.{bump_group_state_version, group_did_from_params}
use anp_server_go.Group.Removal.{bump_group_state_version-Kept}
use anp_server_go.Group.Updates.{group_rebind_member, rebind_target}
use anp_server_go.Json.{
  GoMap, Json, as_map, as_str, fields, get, get_map, get_str, lookup_field, object, str,
}
use anp_server_go.Moves.{Moves-bind, Moves-pure}
use anp_server_go.Sql.{rename_member}
use anp_server_go.Store.{Db, Member}

-- An action whose outcome is known.
Ends-step :
    {A B : Type 0} {R : Result B × Db → Type 0} {s t : Db} (m : Exec A) (f : A → Exec B) (a : A)
    → m s ≡ (ok a, t)
    → Ends R (f a) t
    → Ends R (m >>= f) s
unfolding ◌>>=◌
Ends-step {R} m f a known next = record { at = rw known next.at }

raise_if_passes : (b : Bool) (e : Error) (s : Db) → b ≡ false → raise_if b e s ≡ (ok tt, s)
unfolding raise_if
raise_if_passes true e s h = cc
raise_if_passes false e s h = refl

-- A request that names a group, its member and the DID that is to take the place.
abbrev pub takeover : String → String → String → GoMap
takeover gid old new = some (
    fields (
      (
        "body",
        object (
            ("group_did", str gid)
            ∷ ("member_handle", str "any")
            ∷ ("previous_member_did", str old)
            ∷ ("new_member_did", str new)
            ∷ []),
      )
      ∷ []))

module _ (s : Db) (gid old new : String) (m : Member) (named : (gid == "") ≡ false)
    (old_named : (old == "") ≡ false) (new_named : (new == "") ≡ false)
    (apart : (old == new) ≡ false) (found : lookup (gid, old) s.group_members ≡ some m)
    (free : lookup (gid, new) s.group_members ≡ none) where
  targets : rebind_target (takeover gid old new) old s ≡ (ok gid, s)
  unfolding rebind_target group_did_from_params get_map get_str get as_map as_str lookup_field ◌>>=◌
  targets = rw named (rw named refl)

  renames :
      rename_member gid old new s
      ≡ (ok tt, record s { group_members = insert (gid, new) m (erase (gid, old) s.group_members) })
  unfolding rename_member
  renames = rw (found, rename_member) (rw apart (rw free refl))

  complete : (old == "" || new == "") ≡ false
  complete = rw old_named new_named

  own : (not (new == "") && not (new == new)) ≡ false
  own = ground (arith, eq_refl new)

  stays :
      (reply : ℕ → Json)
      → (let renamed = insert (gid, new) m (erase (gid, old) s.group_members) in
          let run = bump_group_state_version gid >>= λ v. pure (reply v) in
          lookup (gid, new) (run (record s { group_members = renamed })).1.group_members ≡ some m)
  stays reply =
      (Moves-bind _ _ (bump_group_state_version-Kept (gid, new) gid) (λ v. Moves-pure (reply v))).at
        _
      ∙ rw (lookup-insert (gid, new) (gid, new) m (erase (gid, old) s.group_members))
          (rw (beq_refl {K = String × String} (gid, new)) refl)

  taken_over :
      Ends
        (λ r. lookup (gid, new) r.1.group_members ≡ some m)
        (group_rebind_member new (takeover gid old new))
        s
  unfolding group_rebind_member get_map get_str get as_map as_str lookup_field
  taken_over = Ends-step _ _ tt (raise_if_passes _ _ s complete) (
      Ends-step _ _ gid targets (
        Ends-step _ _ tt (raise_if_passes _ _ s own) (
          Ends-gets _ _ (
            Ends-or_raise _ _ _ (λ gone. some_none (sym found ∙ gone))
              λ m' there. Ends-step _ _ tt renames (record { at = stays _ })))))

-- group.rebind_member gives a membership of any group to any caller who is no member: the request
-- only names the member's DID and the caller's own as the new one. The caller then has the row with
-- its role, the owner's too; no handle binding and no consent is asked for.
pub group_rebind_member-takeover :
    (s : Db) (gid old new : String) (m : Member)
    → (gid == "") ≡ false
    → (old == "") ≡ false
    → (new == "") ≡ false
    → (old == new) ≡ false
    → lookup (gid, old) s.group_members ≡ some m
    → lookup (gid, new) s.group_members ≡ none
    → lookup (gid, new) (group_rebind_member new (takeover gid old new) s).1.group_members ≡ some m
group_rebind_member-takeover s gid old new m named old_named new_named apart found free =
    (taken_over s gid old new m named old_named new_named apart found free).at
