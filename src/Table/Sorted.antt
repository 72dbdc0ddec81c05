-- ===== src/Table/Sorted.antt =====
-- The keys of a table rise, as the keys of a `BTreeMap` do.
use serverless_gateway.Prelude.{ℕ, ◌+◌, ◌≤◌, ◌<◌, ◌≡◌, refl, none, [], ◌∷◌, arith}
use serverless_gateway.Table.{Table, lookup, insert, remove}

module _ {ℓ} {V : Type ℓ} where
  -- Every key is at least the bound, and they rise.
  abbrev pub From : ℕ → Table V → Type 0
  From n [] = Unit
  From n ((k, v) ∷ m) = (n ≤ k) × From (k + 1) m

  abbrev pub IsSorted : Table V → Type 0
  IsSorted m = From 0 m

  pub From-mono : (n k : ℕ) (m : Table V) → k ≤ n → From n m → From k m
  From-mono n k [] h s = tt
  From-mono n k ((j, v) ∷ m) h s = (omega arith, s.1)

  pub insert-From : (n k : ℕ) (v : V) (m : Table V) → n ≤ k → From n m → From n (insert k v m)
  unfolding insert
  insert-From n k v [] h s = (h, tt)
  insert-From n k v ((j, w) ∷ m) h s =
      ground (arith, insert-From (j + 1) k v m, From-mono (j + 1) (k + 1) m)

  pub remove-From : (n k : ℕ) (m : Table V) → From n m → From n (remove k m)
  unfolding remove
  remove-From n k [] s = tt
  remove-From n k ((j, w) ∷ m) s =
      ground (arith, remove-From (j + 1) k m, From-mono (j + 1) n (remove k m))

  pub lookup-below : (n k : ℕ) (m : Table V) → From n m → k < n → lookup k m ≡ none
  unfolding lookup
  lookup-below n k [] s h = refl
  lookup-below n k ((j, w) ∷ m) s h = ground (arith, lookup-below (j + 1) k m)
