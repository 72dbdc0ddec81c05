-- ===== src/Table.antt =====
-- The maps of the program: a `BTreeMap` iterates in the order of its keys, so an entry is inserted
-- in its place; a `HashMap` is the same table, of which no order is read.
pub mod Laws
pub mod Sorted
pub mod Sets
use serverless_gateway.Prelude.{
  ltb, ◌==◌, if◌then◌else◌, ℕ, Bool, true, false, Option, none, some, List, [], ◌∷◌, map,
}

abbrev pub Table {ℓ} : Type ℓ → Type ℓ
Table V = List (ℕ × V)

module _ {ℓ} {V : Type ℓ} where
  unfoldable pub lookup : ℕ → Table V → Option V
  lookup k [] = none
  lookup k ((j, v) ∷ m) = if k == j then some v else lookup k m

  unfoldable pub insert : ℕ → V → Table V → Table V
  insert k v [] = (k, v) ∷ []
  insert k v ((j, w) ∷ m) =
      if k == j then (k, v) ∷ m else if ltb k j then (k, v) ∷ (j, w) ∷ m else (j, w) ∷ insert k v m

  unfoldable pub remove : ℕ → Table V → Table V
  remove k [] = []
  remove k ((j, w) ∷ m) = let rest = remove k m in if k == j then rest else (j, w) ∷ rest

  -- `get_mut`, with what is done to the value found.
  unfoldable pub modify : ℕ → (V → V) → Table V → Table V
  modify k f [] = []
  modify k f ((j, w) ∷ m) = if k == j then (j, f w) ∷ modify k f m else (j, w) ∷ modify k f m

  unfoldable pub contains_key : ℕ → Table V → Bool
  contains_key k m = elim (lookup k m) [ none ↦ false | some _ ↦ true ]

  abbrev pub keys : Table V → List ℕ
  keys = map (λ e. e.0)

  abbrev pub values : Table V → List V
  values = map (λ e. e.1)
