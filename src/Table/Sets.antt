-- ===== src/Table/Sets.antt =====
-- A table whose keys rise is determined by what its lookups find, and a set by its elements.
use serverless_gateway.Prelude.{
  ltb, ◌==◌, if◌then◌else◌, ==_refl, Bool-cases, ℕ, ◌+◌, ◌≤◌, ◌≡◌, refl, sym, ap, subst, ◌∙◌, inl,
  inr, Bool, true, false, ◌||◌, Option, none, some, List, [], ◌∷◌, arith,
}
use serverless_gateway.Table.{Table, lookup, contains_key, insert}
use serverless_gateway.Table.Laws.{lookup-insert}
use serverless_gateway.Table.Sorted.{From, IsSorted, lookup-below}

module _ {V : Type 0} where
  lookup-head : (j : ℕ) (v : V) (m : Table V) → lookup j ((j, v) ∷ m) ≡ some v
  unfolding lookup
  lookup-head j v m = rw (==_refl j) refl

  lookup-tail :
      (n k : ℕ) (v : V) (m : Table V)
      → From (n + 1) m
      → lookup k m ≡ (if k == n then none else lookup k ((n, v) ∷ m))
  unfolding lookup
  lookup-tail n k v m s = ground (arith, lookup-below (n + 1) k m)

  -- The smaller of two first keys that differ would be found in one of the tables alone.
  head_agrees :
      (i j : ℕ) (v w : V) (a b : Table V)
      → From (j + 1) b
      → lookup i ((i, v) ∷ a) ≡ lookup i ((j, w) ∷ b)
      → j ≤ i
  head_agrees i j v w a b s h = elim (Bool-cases (ltb i j)) [
    | inl below ↦
        let e : lookup i ((j, w) ∷ b) ≡ none =
          lookup-below j i ((j, w) ∷ b) (omega arith, s) (ground arith) in
        let f : some v ≡ none = sym (lookup-head i v a) ∙ h ∙ e in absurd cc
    | inr above ↦ ground arith
  ]

  pub lookups-injective :
      (n : ℕ) (a b : Table V) → From n a → From n b → ((k : ℕ) → lookup k a ≡ lookup k b) → a ≡ b
  lookups-injective n [] [] s t h = refl
  lookups-injective n [] ((j, w) ∷ b) s t h =
      let e : none ≡ some w = unfold lookup in (h j ∙ lookup-head j w b) in absurd cc
  lookups-injective n ((i, v) ∷ a) [] s t h =
      let e : some v ≡ none = unfold lookup in (sym (lookup-head i v a) ∙ h i) in absurd cc
  lookups-injective n ((i, v) ∷ a) ((j, w) ∷ b) s t h =
      let same : i ≡ j =
        omega (arith, head_agrees i j v w a b t.1 (h i), head_agrees j i w v b a s.1 (sym (h j))) in
      let value : some v ≡ some w =
        sym (lookup-head i v a) ∙ h i ∙ ap (λ k. lookup k ((j, w) ∷ b)) same ∙ lookup-head j w b in
      let above : From (i + 1) b = subst (λ k. From (k + 1) b) (sym same) t.1 in
      let rest : a ≡ b = lookups-injective (i + 1) a b s.1 above (λ k.
        lookup-tail i k v a s.1
        ∙ ap (λ o. if k == i then none else o) (h k)
        ∙ ap (λ m. if k == m then none else lookup k ((j, w) ∷ b)) same
        ∙ sym (lookup-tail j k w b t.1)) in
      cc

-- Whether a list has the element.
unfoldable pub elem : ℕ → List ℕ → Bool
elem n [] = false
elem n (m ∷ ms) = n == m || elem n ms

unit_option :
    (o : Option (Unit {0}))
    → o ≡ (if elim o [ none ↦ false | some _ ↦ true ] then some tt else none)
unit_option none = refl
unit_option (some u) = refl

contains_key-lookup :
    (k : ℕ) (a : Table (Unit {0})) → lookup k a ≡ (if contains_key k a then some tt else none)
unfolding contains_key
contains_key-lookup k a = unit_option (lookup k a)

-- Two sets with the same elements, in their order, are the same.
pub contains_key-injective :
    (a b : Table (Unit {0}))
    → IsSorted a
    → IsSorted b
    → ((k : ℕ) → contains_key k a ≡ contains_key k b)
    → a ≡ b
contains_key-injective a b s t h = lookups-injective 0 a b s t (λ k.
    contains_key-lookup k a
    ∙ ap (λ c. if c then some tt else none) (h k)
    ∙ sym (contains_key-lookup k b))

insert_option :
    (b : Bool) (o : Option (Unit {0}))
    → elim (if b then some tt else o) [ none ↦ false | some _ ↦ true ]
      ≡ (b || elim o [ none ↦ false | some _ ↦ true ])
insert_option true o = refl
insert_option false o = refl

pub contains_key-insert :
    (k j : ℕ) (a : Table (Unit {0})) → contains_key j (insert k tt a) ≡ (j == k || contains_key j a)
unfolding contains_key
contains_key-insert k j a =
    ap (λ o. elim o [ none ↦ false | some _ ↦ true ]) (lookup-insert k j tt a)
    ∙ insert_option (j == k) (lookup j a)
