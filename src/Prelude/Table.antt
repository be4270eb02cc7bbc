-- ===== src/Prelude/Table.antt =====
-- A database table as an association list from its primary key to the row.
use mathlib.Core.Path.{◌≡◌, refl}
use mathlib.Core.Logic.{◌≢◌, ◌⊎◌, inl, inr}
use mathlib.Core.Option.{Option, none, some}
use mathlib.Core.List.{List, [], ◌∷◌}
use native.Mathlib.Omega.{arith}
use mathlib.Core.Path.{subst}
use industrial_equipment_mon.Prelude.Tests.{Eq, if◌then◌else◌, Bool-cases}
use industrial_equipment_mon.Prelude.Lists.{All}

abbrev pub Table {ℓ κ} : Type ℓ → Type κ → Type (ℓ ⊔ κ)
Table K V = List (K × V)

module _ {ℓ κ} {K : Type ℓ} {V : Type κ} ⦃e : Eq K⦄ where
  unfoldable pub lookup : K → Table K V → Option V
  lookup k [] = none
  lookup k ((j, v) ∷ t) = if e.beq j k then some v else lookup k t

  -- Write the row of a key, in place where the key is there, at the end where it is not.
  unfoldable pub insert : K → V → Table K V → Table K V
  insert k v [] = (k, v) ∷ []
  insert k v ((j, w) ∷ t) = if e.beq j k then (k, v) ∷ t else (j, w) ∷ insert k v t

  unfoldable pub erase : K → Table K V → Table K V
  erase k [] = []
  erase k ((j, w) ∷ t) = let rest = erase k t in if e.beq j k then rest else (j, w) ∷ rest

  pub lookup-insert :
      (k j : K) (v : V) (t : Table K V)
      → lookup j (insert k v t) ≡ (if e.beq k j then some v else lookup j t)
  unfolding lookup insert
  lookup-insert k j v [] = refl
  lookup-insert k j v ((i, w) ∷ t) =
      ground (arith, e.beq_iff k j, e.beq_iff i k, e.beq_iff i j, lookup-insert k j v t)

  pub lookup-insert_self : (k : K) (v : V) (t : Table K V) → lookup k (insert k v t) ≡ some v
  lookup-insert_self k v t = ground (arith, lookup-insert k k v t, e.beq_iff k k)

  pub lookup-insert_ne :
      (k j : K) (v : V) (t : Table K V) → k ≢ j → lookup j (insert k v t) ≡ lookup j t
  lookup-insert_ne k j v t h = ground (arith, lookup-insert k j v t, e.beq_iff k j)

  -- What is found after a write is the row that was written, or another key's old row.
  pub lookup-insert_cases :
      (k j : K) (v w : V) (t : Table K V)
      → lookup j (insert k v t) ≡ some w
      → ((k ≡ j) × (v ≡ w)) ⊎ ((k ≢ j) × (lookup j t ≡ some w))
  lookup-insert_cases k j v w t h = elim (Bool-cases (e.beq k j)) [
    | inl same ↦ inl ((e.beq_iff k j).0 same, ground (arith, lookup-insert k j v t))
    | inr other ↦ inr ((λ q. ground (arith, e.beq_iff k j)), ground (arith, lookup-insert k j v t))
  ]

  -- A write loses no row.
  pub lookup-insert_keeps :
      (k j : K) (v : V) (t : Table K V) {w : V}
      → lookup j t ≡ some w
      → (w' : V) × (lookup j (insert k v t) ≡ some w')
  lookup-insert_keeps k j v t {w} h = elim (Bool-cases (e.beq k j)) [
    | inl same ↦ (v, ground (arith, lookup-insert k j v t))
    | inr other ↦ (w, ground (arith, lookup-insert k j v t))
  ]

  pub lookup-erase :
      (k j : K) (t : Table K V) → lookup j (erase k t) ≡ (if e.beq k j then none else lookup j t)
  unfolding lookup erase
  lookup-erase k j [] = ground arith
  lookup-erase k j ((i, w) ∷ t) =
      ground (arith, lookup-erase k j t, e.beq_iff i k, e.beq_iff i j, e.beq_iff k j)

-- A property of every row, by its key.
module _ {ℓ κ μ} {K : Type ℓ} {V : Type κ} ⦃e : Eq K⦄ (P : K × V → Type μ) where
  pub All-insert : (k : K) (v : V) (t : Table K V) → P (k, v) → All P t → All P (insert k v t)
  unfolding insert
  All-insert k v [] h hs = (h, tt)
  All-insert k v ((j, w) ∷ t) h hs = elim (Bool-cases (e.beq j k)) [
    | inl same ↦ rw same (h, hs.1)
    | inr other ↦ rw other (hs.0, All-insert k v t h hs.1)
  ]

  pub All-lookup : (k : K) (v : V) (t : Table K V) → All P t → lookup k t ≡ some v → P (k, v)
  unfolding lookup
  All-lookup k v [] hs q = absurd (cc)
  All-lookup k v ((j, w) ∷ t) hs q = elim (Bool-cases (e.beq j k)) [
    | inl same ↦
        let row : (j, w) ≡ (k, v) = cc ((e.beq_iff j k).0 same, rw same at q) in subst P row hs.0
    | inr other ↦ All-lookup k v t hs.1 (rw other at q)
  ]

  pub All-erase : (k : K) (t : Table K V) → All P t → All P (erase k t)
  unfolding erase
  All-erase k [] hs = tt
  All-erase k ((j, w) ∷ t) hs = elim (Bool-cases (e.beq j k)) [
    | inl same ↦ rw same (All-erase k t hs.1)
    | inr other ↦ rw other (hs.0, All-erase k t hs.1)
  ]
