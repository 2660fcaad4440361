-- ===== src/Direct/Prekeys.antt =====
-- The table of one-time prekeys under the handlers of internal/server/e2ee.go.
use anp_server_go.Common.{
  All, Bool, Bool-cases, List, Option, String, [], arith, eq_iff, false, filter, inl, inr, length,
  none, not, refl, some, sym, ℕ, ◌&&◌, ◌++◌, ◌==◌, ◌∙◌, ◌∷◌, ◌≡◌, ◌≤◌,
}
use mathlib.Core.Path.{subst}
use anp_server_go.Direct.{
  insert_prekeys, oldest_prekey, publish_prekey_bundle, store_prekeys, take_prekey,
}
use anp_server_go.Ends.{Ends, Ends-bind, Ends-gets, Ends-modify, Ends-or_raise, Ends-pure}
use anp_server_go.Env.{Env}
use anp_server_go.Exec.{Error, Result, err, ok, pure, ◌>>=◌}
use anp_server_go.Json.{GoMap, Json}
use anp_server_go.Moves.{Moves, Moves-bind, Moves-pure, Preorder, moves_rules}
use anp_server_go.Sql.{
  delete_prekey, insert_prekey, keep_freshest, prekeys_of, trim_prekeys, upsert_bundle,
}
use anp_server_go.Store.{Db, OneTimePrekey}

length-keep_freshest :
    (kept : ℕ) (did : String) (ks : List OneTimePrekey)
    → length (prekeys_of did (keep_freshest kept did ks)) ≤ length (prekeys_of did ks)
length-keep_freshest kept did [] = omega arith
length-keep_freshest kept did (k ∷ ks) = ground (arith, length-keep_freshest kept did ks)

keep_freshest-bounds :
    (kept : ℕ) (did : String) (ks : List OneTimePrekey)
    → length (prekeys_of did (keep_freshest kept did ks)) ≤ kept
keep_freshest-bounds kept did [] = omega arith
keep_freshest-bounds kept did (k ∷ ks) =
    ground (arith, keep_freshest-bounds kept did ks, length-keep_freshest kept did ks)

keep_freshest-others :
    (kept : ℕ) (did other : String) (ks : List OneTimePrekey)
    → (did == other) ≡ false
    → prekeys_of other (keep_freshest kept did ks) ≡ prekeys_of other ks
keep_freshest-others kept did other [] different = refl
keep_freshest-others kept did other (k ∷ ks) different = ground (
  arith,
  keep_freshest-others kept did other ks different,
  eq_iff k.owner_did did,
  eq_iff k.owner_did other,
  eq_iff did other,
)

prekeys_of-append :
    (other : String) (k : OneTimePrekey) (ks : List OneTimePrekey)
    → (k.owner_did == other) ≡ false
    → prekeys_of other (ks ++ k ∷ []) ≡ prekeys_of other ks
prekeys_of-append other k [] different = rw different refl
prekeys_of-append other k (j ∷ ks) different =
    ground (arith, prekeys_of-append other k ks different)

-- The rows of one owner, as they are before and after.
abbrev rows_kept : String → Preorder
rows_kept other = record {
  Rel = λ s t. prekeys_of other t.one_time_prekeys ≡ prekeys_of other s.one_time_prekeys;
  rel_refl = λ s. refl;
  rel_trans = λ s t u h k. k ∙ h;
}

module _ (did other : String) (different : (did == other) ≡ false) where
  insert_prekey-others : (v : Json) → Moves (rows_kept other) (insert_prekey did v)
  unfolding insert_prekey
  insert_prekey-others v = record {
    at = λ s. prekeys_of-append other _ s.one_time_prekeys different;
  }

  insert_prekeys-others : (vs : List Json) → Moves (rows_kept other) (insert_prekeys did vs)
  unfolding insert_prekeys
  insert_prekeys-others [] = Moves-pure tt
  insert_prekeys-others (v ∷ vs) =
      Moves-bind _ _ (insert_prekey-others v) (λ _. insert_prekeys-others vs)

  trim_prekeys-others : Moves (rows_kept other) (trim_prekeys did)
  unfolding trim_prekeys
  trim_prekeys-others = record { at = λ s. keep_freshest-others 100 did other _ different }

insert_prekeys_ok : (did : String) (vs : List Json) (s : Db) → (insert_prekeys did vs s).0 ≡ ok tt
unfolding insert_prekeys ◌>>=◌ pure insert_prekey
insert_prekeys_ok did [] s = refl
insert_prekeys_ok did (v ∷ vs) s = insert_prekeys_ok did vs _

-- No owner has more than 100 prekeys.
abbrev pub AreBounded : Db → Type 0
AreBounded s = (d : String) → length (prekeys_of d s.one_time_prekeys) ≤ 100

trim_bounded :
    (did : String) (s t : Db)
    → AreBounded s
    → ((d : String) → (did == d) ≡ false → (rows_kept d).Rel s t)
    → AreBounded (trim_prekeys did t).1
unfolding trim_prekeys
trim_bounded did s t bounded kept d = elim (Bool-cases (did == d)) [
  | inl same ↦
      subst (λ x. length (prekeys_of x (keep_freshest 100 did t.one_time_prekeys)) ≤ 100)
        ((eq_iff did d).0 same) (keep_freshest-bounds 100 did t.one_time_prekeys)
  | inr different ↦
      rw (keep_freshest-others 100 did d t.one_time_prekeys different)
        (rw (kept d different) (bounded d))
]

no_error : {A C : Type 0} {a : A} {e : Error} → ok a ≡ err e → C
no_error h = cc

store_prekeys-bounded :
    (did : String) (vs : Option (List Json)) (s : Db)
    → AreBounded s
    → AreBounded (store_prekeys did vs s).1
unfolding store_prekeys pure
store_prekeys-bounded did none s bounded = bounded
store_prekeys-bounded did (some vs) s bounded =
    (Ends-bind {R = λ r. AreBounded r.1} {s = s} (insert_prekeys did vs) (λ _. trim_prekeys did)
      (λ e failed. no_error (sym (insert_prekeys_ok did vs s) ∙ failed))
      (λ u done. record {
        at =
            trim_bounded did s _ bounded
              (λ d different. (insert_prekeys-others did d different vs).at s);
      })).at

abbrev boundedness : Preorder
boundedness = record {
  Rel = λ s t. AreBounded s → AreBounded t;
  rel_refl = λ s h. h;
  rel_trans = λ s t u h k b. k (h b);
}

store_prekeys-Moves :
    (did : String) (vs : Option (List Json)) → Moves boundedness (store_prekeys did vs)
store_prekeys-Moves did vs = record { at = store_prekeys-bounded did vs }

upsert_bundle-Moves : (did : String) (bundle : GoMap) → Moves boundedness (upsert_bundle did bundle)
unfolding upsert_bundle
upsert_bundle-Moves did bundle = record { at = λ s h. h }

publish-Moves :
    (env : Env) (caller : String) (params : GoMap)
    → Moves boundedness (publish_prekey_bundle env caller params)
unfolding publish_prekey_bundle
publish-Moves env caller params =
    search (moves_rules, store_prekeys-Moves, upsert_bundle-Moves) depth 10

-- Publishing prekeys leaves no owner with more than 100, if no owner had more before.
pub publish_prekey_bundle-AreBounded :
    (env : Env) (caller : String) (params : GoMap) (s : Db)
    → AreBounded s
    → AreBounded (publish_prekey_bundle env caller params s).1
publish_prekey_bundle-AreBounded env caller params s bounded =
    (publish-Moves env caller params).at s bounded

filter_gone :
    (did : String) (same : Json → Bool) (ks : List OneTimePrekey)
    → All
        (λ k. same k.prekey ≡ false)
        (prekeys_of did (filter (λ k. not (k.owner_did == did && same k.prekey)) ks))
filter_gone did same [] = tt
filter_gone did same (k ∷ ks) = ground (arith, filter_gone did same ks)

filter_others :
    (did other : String) (same : Json → Bool) (ks : List OneTimePrekey)
    → (did == other) ≡ false
    → prekeys_of other (filter (λ k. not (k.owner_did == did && same k.prekey)) ks)
      ≡ prekeys_of other ks
filter_others did other same [] different = refl
filter_others did other same (k ∷ ks) different = ground (
  arith,
  filter_others did other same ks different,
  eq_iff k.owner_did did,
  eq_iff k.owner_did other,
  eq_iff did other,
)

filter_own :
    (did : String) (same : Json → Bool) (ks : List OneTimePrekey)
    → prekeys_of did (filter (λ k. not (k.owner_did == did && same k.prekey)) ks)
      ≡ filter (λ k. not (same k.prekey)) (prekeys_of did ks)
filter_own did same [] = refl
filter_own did same (k ∷ ks) = ground (arith, filter_own did same ks)

-- What handing out a prekey leaves: no row of the owner with its text, the owner's other rows, and
-- all rows of the other owners.
abbrev pub IsTaken : Env → String → Json → Db → Db → Type 0
IsTaken env did prekey s t =
    All (λ k. (env.marshal k.prekey == env.marshal prekey) ≡ false)
      (prekeys_of did t.one_time_prekeys)
    × (prekeys_of did t.one_time_prekeys
        ≡ filter (λ k. not (env.marshal k.prekey == env.marshal prekey))
            (prekeys_of did s.one_time_prekeys))
    × ((other : String)
        → (did == other) ≡ false
        → prekeys_of other t.one_time_prekeys ≡ prekeys_of other s.one_time_prekeys)

abbrev pub Taken : Env → String → Db → Result Json × Db → Type 0
Taken env did s (err e, t) = (t ≡ s) × (oldest_prekey did s.one_time_prekeys ≡ none)
Taken env did s (ok prekey, t) =
    (oldest_prekey did s.one_time_prekeys ≡ some prekey) × IsTaken env did prekey s t

is_taken :
    (env : Env) (did : String) (prekey : Json) (s : Db)
    → IsTaken env did prekey s
        (delete_prekey did (λ other. env.marshal other == env.marshal prekey) s).1
unfolding delete_prekey
is_taken env did prekey s = (
  filter_gone did _ s.one_time_prekeys,
  filter_own did _ s.one_time_prekeys,
  λ other different. filter_others did other _ s.one_time_prekeys different,
)

taken : (env : Env) (did : String) (s : Db) → Ends (Taken env did s) (take_prekey env did) s
unfolding take_prekey delete_prekey
taken env did s = Ends-gets _ _ (
    Ends-or_raise _ _ _ (λ gone. (refl, gone))
      λ prekey oldest. Ends-modify _ _ (Ends-pure prekey (oldest, is_taken env did prekey s)))

-- Taking a prekey of a DID fails exactly as its rows are used up, and then changes nothing; else
-- it gives the oldest row's prekey, deletes every row of the DID that has its text, so that it is
-- not handed out again, and keeps the DID's other rows and the rows of every other DID.
pub take_prekey-Taken :
    (env : Env) (did : String) (s : Db) → Taken env did s (take_prekey env did s)
take_prekey-Taken env did s = (taken env did s).at
