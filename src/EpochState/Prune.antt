-- ===== src/EpochState/Prune.antt =====
-- Pruning removes the old cycles and no others.
use serverless_gateway.Table.Laws.{lookup-remove}
use serverless_gateway.Table.{Table, lookup, remove, keys}
use serverless_gateway.Words.{u64_mod, add64, add64-exact}
use serverless_gateway.Prelude.{
  ltb, leb, ◌==◌, if◌then◌else◌, ltb→lt, ==→eq, Bool-cases, Option-cases, ok-injective, ok, ℕ, ◌+◌,
  ◌<◌, ◌≡◌, refl, sym, ◌∙◌, inl, inr, Bool, true, false, not, ◌||◌, none, some, List, [], ◌∷◌,
  arith,
}
use serverless_gateway.Table.Sorted.{From, lookup-below, IsSorted}
use serverless_gateway.EpochState.{
  Gateways, current_cycle, cycles_to_remove, remove_all, prune_old_cycle_states,
}

is_in : ℕ → List ℕ → Bool
is_in k [] = false
is_in k (j ∷ ks) = k == j || is_in k ks

lookup-remove_all {ℓ} :
    {V : Type ℓ} (k : ℕ) (ks : List ℕ) (m : Table V)
    → lookup k (remove_all ks m) ≡ (if is_in k ks then none else lookup k m)
unfolding remove_all is_in
lookup-remove_all k [] m = refl
lookup-remove_all k (j ∷ ks) m =
    rw (lookup-remove_all k ks (remove j m), lookup-remove j k m) (ground arith)

-- Seven more than the cycle is at most the current one.
abbrev pub is_old : ℕ → ℕ → Bool
is_old current k = leb (7 + k) current

older-is_old : (current j k : ℕ) → j < k → is_old current j ≡ false → is_old current k ≡ false
older-is_old current j k h e = ground arith

oldness :
    (current k j : ℕ) → k == j ≡ true → k + 7 < u64_mod → leb (add64 7 j) current ≡ is_old current k
oldness current k j same small =
    let e = ==→eq k j same in
    let small_j : 7 + j < u64_mod = omega arith in rw (add64-exact 7 j small_j, e) refl

later :
    (current j k : ℕ)
    → k + 7 < u64_mod
    → j < k
    → leb (add64 7 j) current ≡ false
    → is_old current k ≡ false
later current j k small h e = older-is_old current j k h (rw (add64-exact 7 j (omega arith)) at e)

above {ℓ} :
    {V : Type ℓ} (k j : ℕ) (v : V) (m : Table V) → From (j + 1) m → lookup k m ≡ some v → j < k
above k j v m s e = elim (Bool-cases (ltb k (j + 1))) [
  | inl less ↦ cc (lookup-below (j + 1) k m s (ltb→lt k (j + 1) less), e)
  | inr not ↦ ground arith
]

-- A scan that stops or goes on at `b` has its first key exactly if it goes on, and a later one as
-- the rest has it.
is_in-first :
    (k j : ℕ) (more : List ℕ) (b : Bool) → k == j ≡ true → is_in k (if b then j ∷ more else []) ≡ b
unfolding is_in
is_in-first k j more true e = rw e refl
is_in-first k j more false e = refl

is_in-rest :
    (k j : ℕ) (more : List ℕ) (b o : Bool)
    → k == j ≡ false
    → is_in k more ≡ o
    → (b ≡ false → o ≡ false)
    → is_in k (if b then j ∷ more else []) ≡ o
unfolding is_in
is_in-rest k j more true o e rest h = rw (e, rest) refl
is_in-rest k j more false o e rest h = sym (h refl)

is_in-cycles_to_remove {ℓ} :
    {V : Type ℓ} (current n k : ℕ) (v : V) (m : Table V)
    → From n m
    → k + 7 < u64_mod
    → lookup k m ≡ some v
    → is_in k (cycles_to_remove current (keys m)) ≡ is_old current k
unfolding cycles_to_remove lookup
is_in-cycles_to_remove current n k v [] s small e = cc
is_in-cycles_to_remove current n k v ((j, w) ∷ m) s small e =
    let more = cycles_to_remove current (keys m) in
    let b = leb (add64 7 j) current in
    elim (Bool-cases (k == j)) [
      | inl same ↦ is_in-first k j more b same ∙ oldness current k j same small
      | inr differs ↦
          let below : lookup k m ≡ some v = rw differs at e in
          is_in-rest k j more b (is_old current k) differs
            (is_in-cycles_to_remove current (j + 1) k v m s.1 small below)
            (later current j k small (above k j v m s.1 below))
    ]

-- After pruning at a time in cycle `current`, a cycle is there exactly if it was and is not seven
-- or more behind, and it holds what it held.
pub lookup-prune_old_cycle_states :
    (state pruned : Table Gateways) (epoch time_interval now current k : ℕ)
    → IsSorted state
    → current_cycle now epoch time_interval ≡ ok current
    → prune_old_cycle_states state epoch time_interval now ≡ ok pruned
    → k + 7 < u64_mod
    → lookup k pruned ≡ (if is_old current k then none else lookup k state)
unfolding prune_old_cycle_states
lookup-prune_old_cycle_states state pruned epoch time_interval now current k sorted at e small =
    let done : ok (remove_all (cycles_to_remove current (keys state)) state) ≡ ok pruned =
      rw at at e in
    rw (← ok-injective done, lookup-remove_all k (cycles_to_remove current (keys state)) state)
      (elim (Option-cases (lookup k state)) [
        | inl absent ↦ rw absent (ground arith)
        | inr (m, present) ↦
            rw (is_in-cycles_to_remove current 0 k m state sorted small present) refl
      ])
