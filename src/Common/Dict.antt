-- ===== src/Common/Dict.antt =====
-- A table with a primary key, as an association list in insertion order. `insert` is an INSERT with
-- ON CONFLICT DO UPDATE, `update` an UPDATE and `erase` a DELETE of the row with the key.
use mathlib.Core.Path.{◌≡◌, refl}
use mathlib.Core.Bool.{true}
use mathlib.Core.Option
use mathlib.Core.Option.{Option, none, some}
use mathlib.Core.List.{List, [], ◌∷◌}
use native.Mathlib.Omega.{arith}
use anp_server_go.Common.Tests.{Eq, if◌then◌else◌}

abbrev pub Dict {ℓ} : Type ℓ → Type ℓ → Type ℓ
Dict K V = List (K × V)

-- What `upsert` leaves at its key.
abbrev pub or_new {ℓ} : {V : Type ℓ} → V → (V → V) → Option V → V
or_new v f none = v
or_new v f (some w) = f w

module _ {ℓ} {K V : Type ℓ} ⦃e : Eq K⦄ where
  unfoldable pub lookup : K → Dict K V → Option V
  lookup k [] = none
  lookup k ((j, v) ∷ d) = if e.beq j k then some v else lookup k d

  unfoldable pub insert : K → V → Dict K V → Dict K V
  insert k v [] = (k, v) ∷ []
  insert k v ((j, w) ∷ d) = if e.beq j k then (k, v) ∷ d else (j, w) ∷ insert k v d

  unfoldable pub update : K → (V → V) → Dict K V → Dict K V
  update k f [] = []
  update k f ((j, w) ∷ d) = (j, if e.beq j k then f w else w) ∷ update k f d

  -- INSERT … ON CONFLICT DO UPDATE SET some of the columns
  unfoldable pub upsert : K → V → (V → V) → Dict K V → Dict K V
  upsert k v f [] = (k, v) ∷ []
  upsert k v f ((j, w) ∷ d) = if e.beq j k then (j, f w) ∷ d else (j, w) ∷ upsert k v f d

  unfoldable pub erase : K → Dict K V → Dict K V
  erase k [] = []
  erase k ((j, w) ∷ d) = let rest = erase k d in if e.beq j k then rest else (j, w) ∷ rest

  pub lookup-insert :
      (k j : K) (v : V) (d : Dict K V)
      → lookup j (insert k v d) ≡ (if e.beq k j then some v else lookup j d)
  unfolding lookup insert
  lookup-insert k j v [] = refl
  lookup-insert k j v ((i, w) ∷ d) =
      ground (arith, e.beq_iff k j, e.beq_iff i k, e.beq_iff i j, lookup-insert k j v d)

  pub lookup-update :
      (k j : K) (f : V → V) (d : Dict K V)
      → lookup j (update k f d) ≡ (if e.beq k j then Option.map f (lookup j d) else lookup j d)
  unfolding lookup update
  lookup-update k j f [] = ground arith
  lookup-update k j f ((i, w) ∷ d) =
      ground (arith, e.beq_iff k j, e.beq_iff i k, e.beq_iff i j, lookup-update k j f d)

  pub lookup-upsert :
      (k j : K) (v : V) (f : V → V) (d : Dict K V)
      → lookup j (upsert k v f d)
        ≡ (if e.beq k j then some (or_new v f (lookup j d)) else lookup j d)
  unfolding lookup upsert
  lookup-upsert k j v f [] = refl
  lookup-upsert k j v f ((i, w) ∷ d) =
      ground (arith, e.beq_iff k j, e.beq_iff i k, e.beq_iff i j, lookup-upsert k j v f d)

  pub lookup-erase :
      (k j : K) (d : Dict K V) → lookup j (erase k d) ≡ (if e.beq k j then none else lookup j d)
  unfolding lookup erase
  lookup-erase k j [] = ground arith
  lookup-erase k j ((i, w) ∷ d) =
      ground (arith, e.beq_iff k j, e.beq_iff i k, e.beq_iff i j, lookup-erase k j d)

pub beq_refl {ℓ} : {K : Type ℓ} ⦃e : Eq K⦄ (k : K) → e.beq k k ≡ true
beq_refl ⦃e⦄ k = (e.beq_iff k k).1 refl
