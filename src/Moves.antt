-- ===== src/Moves.antt =====
-- What every run of a handler preserves, as a preorder on databases with one rule for each way to
-- build an action. An invariant `P` is the preorder "if P before, then P after".
use anp_server_go.Common.{Bool, Option, false, if◌then◌else◌, none, refl, some, true, ◌∙◌, ◌≡◌}
use anp_server_go.Exec.{
  Error, Exec, Result, continue, err, gets, ignore, ok, or_raise, pure, raise, raise_any, raise_if,
  ◌>>=◌,
}
use anp_server_go.Store.{Db}

pub record Preorder : Type 1 where
  pub Rel : Db → Db → Type 0
  pub rel_refl : (s : Db) → Rel s s
  pub rel_trans : (s t u : Db) → Rel s t → Rel t u → Rel s u

-- `m` moves every database along `p`, whether it returns or fails.
pub record Moves {A : Type 0} (p : Preorder) (m : Exec A) : Type 0 where
  pub at : (s : Db) → p.Rel s (m s).1

-- What writes nothing.
abbrev pub unchanged : Preorder
unchanged = record { Rel = λ s t. t ≡ s; rel_refl = λ s. refl; rel_trans = λ s t u h k. k ∙ h }

or_raise-Rel :
    {A : Type 0} (p : Preorder) (o : Option A) (e : Error) (s : Db) → p.Rel s (or_raise o e s).1
unfolding or_raise
or_raise-Rel p none e s = p.rel_refl s
or_raise-Rel p (some a) e s = p.rel_refl s

raise_if-Rel : (p : Preorder) (b : Bool) (e : Error) (s : Db) → p.Rel s (raise_if b e s).1
unfolding raise_if
raise_if-Rel p true e s = p.rel_refl s
raise_if-Rel p false e s = p.rel_refl s

module _ {p : Preorder} {A : Type 0} where
  pub Moves-pure : (a : A) → Moves p (pure a)
  unfolding pure
  Moves-pure a = record { at = λ s. p.rel_refl s }

  pub Moves-raise : (e : Error) → Moves p (raise {A = A} e)
  unfolding raise
  Moves-raise e = record { at = λ s. p.rel_refl s }

  pub Moves-gets : (f : Db → A) → Moves p (gets f)
  unfolding gets
  Moves-gets f = record { at = λ s. p.rel_refl s }

  pub Moves-or_raise : (o : Option A) (e : Error) → Moves p (or_raise o e)
  Moves-or_raise o e = record { at = or_raise-Rel p o e }

  pub Moves-if : (b : Bool) (m n : Exec A) → Moves p m → Moves p n → Moves p (if b then m else n)
  Moves-if true m n km kn = km
  Moves-if false m n km kn = kn

module _ {p : Preorder} where
  pub Moves-raise_if : (b : Bool) (e : Error) → Moves p (raise_if b e)
  Moves-raise_if b e = record { at = raise_if-Rel p b e }

pub Moves-ignore : {p : Preorder} {A : Type 0} (m : Exec A) → Moves p m → Moves p (ignore m)
unfolding ignore
Moves-ignore m km = record { at = km.at }

raise_any-Rel : (p : Preorder) (o : Option Error) (s : Db) → p.Rel s (raise_any o s).1
unfolding raise_any
raise_any-Rel p none s = p.rel_refl s
raise_any-Rel p (some e) s = p.rel_refl s

pub Moves-raise_any : {p : Preorder} (o : Option Error) → Moves p (raise_any o)
Moves-raise_any {p} o = record { at = raise_any-Rel p o }

module _ {p : Preorder} {A B : Type 0} where
  continue-Rel :
      (r : Result A) (f : A → Exec B) (s : Db)
      → ((a : A) → Moves p (f a))
      → p.Rel s (continue r f s).1
  continue-Rel (ok a) f s kf = (kf a).at s
  continue-Rel (err e) f s kf = p.rel_refl s

  pub Moves-bind :
      (m : Exec A) (f : A → Exec B) → Moves p m → ((a : A) → Moves p (f a)) → Moves p (m >>= f)
  unfolding ◌>>=◌
  Moves-bind m f km kf = record {
    at = λ s.
        let (r, t) = m s in p.rel_trans s t (continue r f t).1 (km.at s) (continue-Rel r f t kf);
  }

pub ruleset moves_rules = (
  Moves-pure, Moves-raise, Moves-gets, Moves-or_raise, Moves-if, Moves-raise_if, Moves-raise_any,
  Moves-ignore, Moves-bind,
)
