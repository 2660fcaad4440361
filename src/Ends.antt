-- ===== src/Ends.antt =====
-- How a run from one database ends: rules that follow a handler step by step and keep what each
-- check has established. `R` speaks of the result with the database that is left.
use anp_server_go.Common.{
  Bool, Option, arith, false, if◌then◌else◌, none, not, refl, some, true, ◌≡◌,
}
use anp_server_go.Exec.{
  Error, Exec, Result, continue, err, gets, modify, ok, or_raise, pure, raise_any, raise_if, ◌>>=◌,
}
use anp_server_go.Store.{Db}

pub err_ok : {A : Type 0} {C : Type 0} {e : Error} {a : A} → err e ≡ ok a → C
err_ok h = cc

pub some_none : {A C : Type 0} {a : A} → some a ≡ none → C
some_none h = cc

pub ok_inj : {A : Type 0} {a b : A} → ok a ≡ ok b → a ≡ b
ok_inj h = cc

-- A last guard that was passed.
pub raise_if_ok :
    (b : Bool) (e : Error) (s : Db) (u : Unit {0}) → (raise_if (not b) e s).0 ≡ ok u → b ≡ true
unfolding raise_if
raise_if_ok true e s u h = refl
raise_if_ok false e s u h = err_ok h

-- A guard `if !b` that was passed.
pub positive : {b : Bool} → not b ≡ false → b ≡ true
positive {b} h = ground arith

pub record Ends {A : Type 0} (R : Result A × Db → Type 0) (m : Exec A) (s : Db) : Type 0 where
  pub at : R (m s)

module _ {B : Type 0} {R : Result B × Db → Type 0} {s : Db} where
  pub Ends-raise_if :
      (b : Bool) (e : Error) (f : Unit {0} → Exec B)
      → R (err e, s)
      → (b ≡ false → Ends R (f tt) s)
      → Ends R (raise_if b e >>= f) s
  unfolding ◌>>=◌
  Ends-raise_if true e f failed passed = record { at = failed }
  Ends-raise_if false e f failed passed = record { at = (passed refl).at }

  pub Ends-raise_any :
      (o : Option Error) (f : Unit {0} → Exec B)
      → ((e : Error) → o ≡ some e → R (err e, s))
      → (o ≡ none → Ends R (f tt) s)
      → Ends R (raise_any o >>= f) s
  unfolding ◌>>=◌
  Ends-raise_any none f failed passed = record { at = (passed refl).at }
  Ends-raise_any (some e) f failed passed = record { at = failed e refl }

  pub Ends-if :
      (b : Bool) (m n : Exec B)
      → (b ≡ true → Ends R m s)
      → (b ≡ false → Ends R n s)
      → Ends R (if b then m else n) s
  Ends-if true m n on_true on_false = on_true refl
  Ends-if false m n on_true on_false = on_false refl

  -- A statement that cannot fail.
  pub Ends-modify :
      (g : Db → Db) (f : Unit {0} → Exec B) → Ends R (f tt) (g s) → Ends R (modify g >>= f) s
  unfolding ◌>>=◌
  Ends-modify g f next = record { at = next.at }

  pub Ends-pure : (b : B) → R (ok b, s) → Ends R (pure b) s
  unfolding pure
  Ends-pure b h = record { at = h }

module _ {A B : Type 0} {R : Result B × Db → Type 0} where
  continue-Ends :
      (r : Result A) (t : Db) (f : A → Exec B)
      → ((e : Error) → r ≡ err e → R (err e, t))
      → ((a : A) → r ≡ ok a → Ends R (f a) t)
      → R (continue r f t)
  continue-Ends (ok a) t f failed passed = (passed a refl).at
  continue-Ends (err e) t f failed passed = failed e refl

module _ {A B : Type 0} {R : Result B × Db → Type 0} {s : Db} where
  pub Ends-gets : (g : Db → A) (f : A → Exec B) → Ends R (f (g s)) s → Ends R (gets g >>= f) s
  unfolding ◌>>=◌
  Ends-gets g f next = record { at = next.at }

  pub Ends-or_raise :
      (o : Option A) (e : Error) (f : A → Exec B)
      → (o ≡ none → R (err e, s))
      → ((a : A) → o ≡ some a → Ends R (f a) s)
      → Ends R (or_raise o e >>= f) s
  unfolding ◌>>=◌
  Ends-or_raise none e f failed passed = record { at = failed refl }
  Ends-or_raise (some a) e f failed passed = record { at = (passed a refl).at }

  pub Ends-bind :
      (m : Exec A) (f : A → Exec B)
      → ((e : Error) → (m s).0 ≡ err e → R (err e, (m s).1))
      → ((a : A) → (m s).0 ≡ ok a → Ends R (f a) (m s).1)
      → Ends R (m >>= f) s
  unfolding ◌>>=◌
  Ends-bind m f failed passed = record { at = continue-Ends (m s).0 (m s).1 f failed passed }
