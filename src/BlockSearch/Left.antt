-- ===== src/BlockSearch/Left.antt =====
-- What is left of a search between the block and the earliest block at or after the target.
use serverless_gateway.Prelude.{
  ltb, if◌then◌else◌, lt→ltb, le→not-ltb, ℕ, zero, suc, ◌+◌, ◌-◌, ◌*◌, ◌≤◌, ◌<◌, ◌≡◌, refl, sym, ap,
  subst, arith,
}
use native.Mathlib.Nat.{mul-le-mul_right, suc-mul}

module _ (target latest : ℕ) (ts : ℕ → ℕ) where
  -- What is left to search at block `b` with the earliest block `e`, below `m`: `e` is not before
  -- the target, or `b` is `e` and the block after it is not.
  pub data Left (b e m : ℕ) : Type 0 where
    between :
        b < e → e ≤ latest → target ≤ ts e → (e + e + 1) * suc latest + (e - b) < m → Left b e m
    at_earliest :
        b ≡ e → e + 1 ≤ latest → target ≤ ts (e + 1) → (e + e + 2) * suc latest < m → Left b e m

  pub Left-inside : {b e m : ℕ} → Left b e m → b ≤ latest
  Left-inside (between below inside known small) = omega arith
  Left-inside (at_earliest here inside known small) = omega arith

  pub Left-positive : {b e m : ℕ} → Left b e m → 0 < m
  Left-positive (between below inside known small) = omega arith
  Left-positive (at_earliest here inside known small) = omega arith

  -- Going back uses up some of it.
  pub Left-back :
      (b e n m : ℕ) → n < b → target ≤ ts b → Left b e (suc m) → Left n (if ltb b e then b else e) m
  Left-back b e n m down after (between below inside known small) =
      let fewer : b + b + 2 ≤ e + e = omega arith in
      let more = mul-le-mul_right (suc latest) fewer in
      rw (lt→ltb b e below) (
        between down (omega arith) after
          (omega (arith, more, suc-mul (b + b + 1) (suc latest), suc-mul (e + e) (suc latest))))
  Left-back b e n m down after (at_earliest here inside known small) =
      rw (le→not-ltb b e (omega arith)) (
        between (omega arith) (omega arith) (subst (λ x. target ≤ ts x) here after)
          (omega (arith, suc-mul (e + e + 1) (suc latest))))

  -- Going forward uses up some of it, on the way to the earliest block and where it is reached.
  pub Left-forward :
      (b e n m : ℕ)
      → b < n
      → n < e
      → e ≤ latest
      → target ≤ ts e
      → (e + e + 1) * suc latest + (e - b) < suc m
      → Left n e m
  Left-forward b e n m up below inside known small = between below inside known (omega arith)

  pub Left-capped :
      (b e m : ℕ)
      → b < e
      → e ≤ latest
      → target ≤ ts e
      → (e + e + 1) * suc latest + (e - b) < suc m
      → Left (e - 1) (e - 1) m
  Left-capped b zero m below inside known small = elim below [ ]
  Left-capped b (suc e) m below inside known small =
      let same : suc e - 1 + 1 ≡ suc e = omega arith in
      let twice : suc e - 1 + (suc e - 1) + 2 ≡ suc e + suc e = omega arith in
      at_earliest refl (omega arith) (subst (λ x. target ≤ ts x) (sym same) known) (
        omega
          (arith, suc-mul (suc e + suc e) (suc latest), same, ap (λ (x : ℕ). x * suc latest) twice))
