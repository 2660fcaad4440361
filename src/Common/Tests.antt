-- ===== src/Common/Tests.antt =====
-- Boolean tests, the conditional, and decidable equality of keys as an interface.
use Prim.Native.Nat.{ℕ, compare, Ordering}
use Prim.Native.String
use Prim.Native.String.{String}
use mathlib.Core.Path.{◌≡◌, refl, ap}
use mathlib.Core.Logic.{◌↔◌, ◌⊎◌, inl, inr}
use mathlib.Core.Bool.{Bool, true, false, ◌&&◌, and-eq-true_iff}
use mathlib.Core.Option.{Option, none, some}
use text.Mathlib.Text.{◌==◌}
use text.Mathlib.TextEquality.{eq_iff}

abbrev pub ltb : ℕ → ℕ → Bool
ltb a b = elim (compare a b) [ Ordering.lt ↦ true | _ ↦ false ]

abbrev pub leb : ℕ → ℕ → Bool
leb a b = elim (compare a b) [ Ordering.gt ↦ false | _ ↦ true ]

infix 1 if◌then◌else◌
abbrev pub if◌then◌else◌ {ℓ} : {A : Type ℓ} → Bool → A → A → A
if true then x else y = x
if false then x else y = y

-- `s + t` of two Go strings
abbrev pub concat : String → String → String
concat s t = String.◌++◌ s t

-- The order of SQLite's BINARY collation.
abbrev pub str_leb : String → String → Bool
str_leb s t = elim (String.compare s t) [ Ordering.gt ↦ false | _ ↦ true ]

pub Bool-cases : (b : Bool) → (b ≡ true) ⊎ (b ≡ false)
Bool-cases true = inl refl
Bool-cases false = inr refl

pub Option-cases {ℓ} : {A : Type ℓ} (o : Option A) → (o ≡ none) ⊎ ((a : A) × (o ≡ some a))
Option-cases none = inl refl
Option-cases (some a) = inr (a, refl)

abbrev pub is_some {ℓ} : {A : Type ℓ} → Option A → Bool
is_some none = false
is_some (some a) = true

-- Keys that the program compares.
pub record Eq {ℓ} (A : Type ℓ) : Type ℓ where
  pub beq : A → A → Bool
  pub beq_iff : (a b : A) → (beq a b ≡ true) ↔ (a ≡ b)

instance abbrev pub string_eq : Eq String
string_eq = record { beq = ◌==◌; beq_iff = eq_iff }

unfoldable pub pair_beq {ℓ} : {A B : Type ℓ} ⦃d : Eq A⦄ ⦃e : Eq B⦄ → A × B → A × B → Bool
pair_beq ⦃d⦄ ⦃e⦄ (a, b) (a', b') = d.beq a a' && e.beq b b'

pub pair_beq_iff {ℓ} :
    {A B : Type ℓ} ⦃d : Eq A⦄ ⦃e : Eq B⦄ (p q : A × B) → (pair_beq p q ≡ true) ↔ (p ≡ q)
unfolding pair_beq
pair_beq_iff ⦃d⦄ ⦃e⦄ (a, b) (a', b') = (
  λ h.
      let (h₀, h₁) = (and-eq-true_iff _ _).0 h in
      λ i. ((d.beq_iff a a').0 h₀ i, (e.beq_iff b b').0 h₁ i),
  λ p.
      (and-eq-true_iff _ _).1
        ((d.beq_iff a a').1 (ap (λ q. q.0) p), (e.beq_iff b b').1 (ap (λ q. q.1) p)),
)

-- A table's key of two columns.
instance abbrev pub pair_eq {ℓ} : {A B : Type ℓ} ⦃d : Eq A⦄ ⦃e : Eq B⦄ → Eq (A × B)
pair_eq = record { beq = pair_beq; beq_iff = pair_beq_iff }
