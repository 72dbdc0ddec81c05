-- ===== src/Selection/Weighted.antt =====
-- The choice is weighted by stake: of the numbers that can be drawn, each gateway is picked by as
-- many as its stake has whole units.
use serverless_gateway.Prelude.{
  leb, ◌==◌, if◌then◌else◌, lt→not-leb, ==_ne, Bool-cases, Outcome, unwrap, ok, err, panicked, ℕ,
  zero, suc, ◌+◌, ◌-◌, ◌≤◌, ◌<◌, ◌≡◌, refl, ap, ◌∙◌, inl, inr, Bool, false, some, List, [], ◌∷◌,
  arith,
}
use native.Mathlib.Nat.{sub-zero}
use serverless_gateway.Words.{u128_mod}
use serverless_gateway.Model.{GatewayData, Job}
use serverless_gateway.Selection.{StdRng, no_stake, draw, pick, choose, Distribution, distribute}
use serverless_gateway.Selection.Search.{binary_search-first_reaching}
use serverless_gateway.Selection.Ticket.{
  tickets, total_weight, owner, running, Positive, running-Rising, first_reaching-owner,
  tickets-Positive, Dealt, distribute-Dealt,
}

pick-owner :
    (ts : List (ℕ × ℕ)) (r : ℕ) → Positive ts → 0 < r → pick (Dealt ts) r ≡ unwrap (owner ts r)
unfolding pick
pick-owner ts r pos h =
    rw (binary_search-first_reaching 0 (running 0 ts) r (running-Rising 0 ts pos))
      (ap unwrap (rw (sub-zero r) at (first_reaching-owner 0 ts r h)))

owner-some :
    (ts : List (ℕ × ℕ)) (r : ℕ) → 0 < r → r ≤ total_weight ts → (a : ℕ) × (owner ts r ≡ some a)
unfolding owner total_weight
owner-some [] r pos h = absurd (omega arith)
owner-some ((a, w) ∷ ts) r pos h = elim (Bool-cases (leb r w)) [
  | inl here ↦ (a, rw here)
  | inr beyond ↦ rw beyond (owner-some ts (r - w) (ground arith) (ground arith))
]

draw_bounds :
    (rng : StdRng) (seed skips total : ℕ)
    → 0 < total
    → (1 ≤ draw rng seed skips total) × (draw rng seed skips total ≤ total)
unfolding draw
draw_bounds rng seed skips total h = rng.gen_range_bounds _ total h

-- Where some gateway of the cycle can serve the chain and the total stake fits a `u128`, a gateway
-- is chosen: the one that holds the ticket drawn, among tickets dealt by stake.
pub choose-owner :
    (rng : StdRng) (job_cycle : ℕ) (job : Job) (gs : List GatewayData) (seed skips : ℕ)
    → let ts = tickets job.request_chain_id gs in
      total_weight ts < u128_mod
      → 0 < total_weight ts
      → (a : ℕ) × (choose rng job_cycle job gs seed skips ≡ ok a)
        × (owner ts (draw rng seed skips (total_weight ts)) ≡ some a)
unfolding choose
choose-owner rng job_cycle job [] seed skips fits some_weight =
    absurd (unfold tickets total_weight in omega arith)
choose-owner rng job_cycle job (g ∷ gs) seed skips fits some_weight =
    let ts : List (ℕ × ℕ) = tickets job.request_chain_id (g ∷ gs) in
    let total : ℕ = total_weight ts in
    let (low, high) = draw_bounds rng seed skips total some_weight in
    let (a, held) = owner-some ts (draw rng seed skips total) low high in
    (
      a,
      rw (distribute-Dealt job.request_chain_id (g ∷ gs) fits, ==_ne total 0 (ground arith))
          (pick-owner ts _ (tickets-Positive job.request_chain_id (g ∷ gs)) low ∙ ap unwrap held),
      held,
    )

-- How many of the numbers 1 to n pick the address.
picks : ℕ → Outcome ℕ → Bool
picks a (ok b) = a == b
picks a (err e) = false
picks a panicked = false

unfoldable pub wins : Distribution → ℕ → ℕ → ℕ
unfolding picks
wins d a zero = 0
wins d a (suc n) = wins d a n + (if picks a (pick d (suc n)) then 1 else 0)

-- The stake of an address, in whole units.
unfoldable pub weight_of : ℕ → List (ℕ × ℕ) → ℕ
weight_of a [] = 0
weight_of a ((b, w) ∷ ts) = (if a == b then w else 0) + weight_of a ts

-- The same count over the tickets.
holds : ℕ → List (ℕ × ℕ) → ℕ → ℕ
holds a ts zero = 0
holds a ts (suc n) = holds a ts n + (if picks a (unwrap (owner ts (suc n))) then 1 else 0)

wins-holds : (ts : List (ℕ × ℕ)) (a n : ℕ) → Positive ts → wins (Dealt ts) a n ≡ holds a ts n
unfolding wins holds
wins-holds ts a zero pos = refl
wins-holds ts a (suc n) pos = rw (wins-holds ts a n pos, pick-owner ts (suc n) pos (omega arith))

-- The first tickets belong to the first entry, the rest to the others.
holds-first :
    (a b w : ℕ) (ts : List (ℕ × ℕ)) (n : ℕ)
    → n ≤ w
    → holds a ((b, w) ∷ ts) n ≡ (if a == b then n else 0)
unfolding holds owner picks
holds-first a b w ts zero h = ground arith
holds-first a b w ts (suc n) h = ground (arith, holds-first a b w ts n)

holds-rest :
    (a b w : ℕ) (ts : List (ℕ × ℕ)) (n k : ℕ)
    → k ≡ w + n
    → holds a ((b, w) ∷ ts) k ≡ (if a == b then w else 0) + holds a ts n
unfolding holds owner picks
holds-rest a b w ts zero k e =
    let e' : k ≡ w = omega arith in rw e' (ground (arith, holds-first a b w ts w))
holds-rest a b w ts (suc n) zero e = absurd (omega arith)
holds-rest a b w ts (suc n) (suc k) e =
    let more : leb (suc k) w ≡ false = lt→not-leb (suc k) w (omega arith) in
    let e' : suc k - w ≡ suc n = omega arith in
    rw (more, e', holds-rest a b w ts n k (omega arith)) (omega arith)

holds-weight_of : (a : ℕ) (ts : List (ℕ × ℕ)) → holds a ts (total_weight ts) ≡ weight_of a ts
unfolding total_weight weight_of
holds-weight_of a [] = unfold holds in refl
holds-weight_of a ((b, w) ∷ ts) =
    rw (holds-rest a b w ts (total_weight ts) _ refl, holds-weight_of a ts)

-- Of the numbers from 1 to the total stake, as many pick an address as the eligible gateways of
-- that address have whole units of stake, where the total fits a `u128`.
pub wins-weight_of :
    (chain : ℕ) (gs : List GatewayData) (d : Distribution) (a : ℕ)
    → total_weight (tickets chain gs) < u128_mod
    → distribute chain gs no_stake ≡ ok d
    → wins d a d.total ≡ weight_of a (tickets chain gs)
wins-weight_of chain gs d a fits e =
    let ts : List (ℕ × ℕ) = tickets chain gs in
    let e' : Dealt ts ≡ d = cc (distribute-Dealt chain gs fits) in
    rw (← e') (wins-holds ts a (total_weight ts) (tickets-Positive chain gs) ∙ holds-weight_of a ts)
