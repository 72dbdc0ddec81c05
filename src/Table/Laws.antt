-- ===== src/Table/Laws.antt =====
-- What a lookup finds after each operation of a table, in one equation for all keys.
use serverless_gateway.Prelude.{◌==◌, if◌then◌else◌, All, ℕ, ◌≡◌, refl, none, some, [], ◌∷◌, arith}
use serverless_gateway.Table.{Table, lookup, insert, remove, modify}
use mathlib.Core.Option

module _ {ℓ} {V : Type ℓ} where
  pub lookup-insert :
      (k j : ℕ) (v : V) (m : Table V)
      → lookup j (insert k v m) ≡ (if j == k then some v else lookup j m)
  unfolding lookup insert
  lookup-insert k j v [] = refl
  lookup-insert k j v ((i, w) ∷ m) = ground (arith, lookup-insert k j v m)

  pub lookup-remove :
      (k j : ℕ) (m : Table V) → lookup j (remove k m) ≡ (if j == k then none else lookup j m)
  unfolding lookup remove
  lookup-remove k j [] = ground arith
  lookup-remove k j ((i, w) ∷ m) = ground (arith, lookup-remove k j m)

  pub lookup-modify :
      (k j : ℕ) (f : V → V) (m : Table V)
      → lookup j (modify k f m) ≡ (if j == k then Option.map f (lookup j m) else lookup j m)
  unfolding lookup modify
  lookup-modify k j f [] = ground arith
  lookup-modify k j f ((i, w) ∷ m) = ground (arith, lookup-modify k j f m)

  -- A predicate of every entry, through every operation.
  pub lookup-All :
      (P : ℕ × V → Type ℓ) (k : ℕ) (v : V) (m : Table V) → All P m → lookup k m ≡ some v → P (k, v)
  unfolding lookup
  lookup-All P k v [] h e = cc
  lookup-All P k v ((j, w) ∷ m) h e = ground (arith, lookup-All P k v m)

  pub insert-All :
      (P : ℕ × V → Type ℓ) (k : ℕ) (v : V) (m : Table V) → P (k, v) → All P m → All P (insert k v m)
  unfolding insert
  insert-All P k v [] p h = (p, tt)
  insert-All P k v ((j, w) ∷ m) p h = ground (arith, insert-All P k v m)

  pub remove-All : (P : ℕ × V → Type ℓ) (k : ℕ) (m : Table V) → All P m → All P (remove k m)
  unfolding remove
  remove-All P k [] h = tt
  remove-All P k ((j, w) ∷ m) h = ground (arith, remove-All P k m)
