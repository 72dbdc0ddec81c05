-- ===== src/Selection/Search.antt =====
-- The binary search finds the least index whose element reaches the target.
use serverless_gateway.Prelude.{
  ltb, leb, if◌then◌else◌, ltb→lt, Bool-cases, length, ℕ, zero, suc, ◌+◌, ◌-◌, ◌/◌, ◌≤◌, ◌<◌, ◌≡◌,
  refl, ◌⊎◌, inl, inr, List, [], ◌∷◌, arith,
}
use serverless_gateway.Selection.{get_or, narrow, binary_search}

-- The elements rise above the bound.
abbrev pub Rising : ℕ → List ℕ → Type 0
Rising b [] = Unit
Rising b (x ∷ xs) = (b < x) × Rising x xs

-- The number of leading elements below the target.
unfoldable pub first_reaching : List ℕ → ℕ → ℕ
first_reaching [] t = 0
first_reaching (x ∷ xs) t = let rest = suc (first_reaching xs t) in if ltb x t then rest else 0

Rising-bound : (b : ℕ) (xs : List ℕ) (i : ℕ) → Rising b xs → i < length xs → b < get_or xs i 0
Rising-bound b [] i h k = absurd (omega arith)
Rising-bound b (x ∷ xs) zero h k = h.0
Rising-bound b (x ∷ xs) (suc i) h k = omega (arith, Rising-bound x xs i h.1 (omega arith))

-- An index between an element below the target and one that reaches it is the first to reach it.
pub first_reaching_unique :
    (b : ℕ) (xs : List ℕ) (t k : ℕ)
    → Rising b xs
    → k ≤ length xs
    → (k ≡ 0) ⊎ (get_or xs (k - 1) 0 < t)
    → (k ≡ length xs) ⊎ (t ≤ get_or xs k 0)
    → first_reaching xs t ≡ k
unfolding first_reaching
first_reaching_unique b [] t k h le below above = omega arith
first_reaching_unique b (x ∷ xs) t zero h le below above = ground arith
first_reaching_unique b (x ∷ xs) t (suc zero) h le below above =
    ground (arith, first_reaching_unique x xs t zero h.1 (omega arith) (inl refl))
first_reaching_unique b (x ∷ xs) t (suc (suc k)) h le below above = ground (
  arith,
  Rising-bound x xs k h.1 (omega arith),
  first_reaching_unique x xs t (suc k) h.1 (omega arith),
)

-- A later element is greater.
pub Rising-lt :
    (b : ℕ) (xs : List ℕ) (i j : ℕ)
    → Rising b xs
    → i < j
    → j < length xs
    → get_or xs i 0 < get_or xs j 0
Rising-lt b [] i j h lt k = absurd (omega arith)
Rising-lt b (x ∷ xs) i zero h lt k = absurd (omega arith)
Rising-lt b (x ∷ xs) zero (suc j) h lt k = Rising-bound x xs j h.1 (omega arith)
Rising-lt b (x ∷ xs) (suc i) (suc j) h lt k = Rising-lt x xs i j h.1 (omega arith) (omega arith)

-- What the search keeps of its window, from `base` up to `stop`.
pub record Window (xs : List ℕ) (t base stop : ℕ) : Type 0 where
  pub inside : stop ≤ length xs
  pub nonempty : base < stop
  pub lower : (base ≡ 0) ⊎ (get_or xs base 0 ≤ t)
  pub upper : (stop ≡ length xs) ⊎ (t < get_or xs stop 0)

-- Half of a window is a window.
Window-left :
    (b : ℕ) (xs : List ℕ) (t size base : ℕ)
    → Rising b xs
    → 1 < size
    → Window xs t base (base + size)
    → t < get_or xs (base + size / 2) 0
    → Window xs t base (base + (size - size / 2))
Window-left b xs t size base h two w above =
    let mid : ℕ = base + size / 2 in
    let stop : ℕ = base + (size - size / 2) in ground (arith, Rising-lt b xs mid stop h)

Window-right :
    (xs : List ℕ) (t size base : ℕ)
    → 1 < size
    → Window xs t base (base + size)
    → get_or xs (base + size / 2) 0 ≤ t
    → Window xs t (base + size / 2) (base + size / 2 + (size - size / 2))
Window-right xs t size base two w below =
    let e : base + size ≡ base + size / 2 + (size - size / 2) = omega arith in
    record {
      inside = omega (arith, w.inside);
      nonempty = omega arith;
      lower = inr below;
      upper = rw (← e) w.upper;
    }

narrow-Window :
    (b fuel : ℕ) (xs : List ℕ) (t size base : ℕ)
    → Rising b xs
    → size ≤ fuel
    → Window xs t base (base + size)
    → Window xs t (narrow fuel xs t size base) (narrow fuel xs t size base + 1)
unfolding narrow
narrow-Window b zero xs t size base h enough w = absurd (omega (arith, w.nonempty))
narrow-Window b (suc fuel) xs t size base h enough w = elim (Bool-cases (leb size 1)) [
  | inl last ↦ let one : size ≡ 1 = ground (arith, w.nonempty) in rw (last) (rw one at w)
  | inr more ↦ elim (Bool-cases (ltb t (get_or xs (base + size / 2) 0))) [
    | inl above ↦
        rw (more, above)
          (narrow-Window b fuel xs t (size - size / 2) base h (ground arith)
            (Window-left b xs t size base h (ground arith) w (ltb→lt _ _ above)))
    | inr below ↦
        rw (more, below)
          (narrow-Window b fuel xs t (size - size / 2) (base + size / 2) h (ground arith)
            (Window-right xs t size base (ground arith) w (ground arith)))
  ]
]

-- A window of one element decides the index.
Window-first_reaching :
    (b : ℕ) (xs : List ℕ) (t base : ℕ)
    → Rising b xs
    → Window xs t base (base + 1)
    → (if ltb (get_or xs base 0) t then base + 1 else base) ≡ first_reaching xs t
Window-first_reaching b xs t base h w = ground (
  arith,
  Rising-lt b xs (base - 1) base h,
  first_reaching_unique b xs t base h,
  first_reaching_unique b xs t (base + 1) h,
)

-- On rising elements the binary search returns the index of the first that reaches the target, or
-- the length if none does.
pub binary_search-first_reaching :
    (b : ℕ) (xs : List ℕ) (t : ℕ) → Rising b xs → binary_search xs t ≡ first_reaching xs t
unfolding binary_search
binary_search-first_reaching b [] t h = unfold first_reaching in refl
binary_search-first_reaching b (x ∷ xs) t h = Window-first_reaching b (x ∷ xs) t _ h (
    narrow-Window b (length (x ∷ xs)) (x ∷ xs) t (length (x ∷ xs)) 0 h (omega arith) (record {
      inside = omega arith;
      nonempty = omega arith;
      lower = inl refl;
      upper = inl (omega arith);
    }))
