-- ===== src/Selection/Ticket.antt =====
-- The loop over the gateways of a cycle, as a list of tickets: each gateway that can take the job
-- holds as many as its stake has whole units.
use serverless_gateway.Prelude.{
  ltb, leb, if◌then◌else◌, lt→ltb, Bool-cases, get_elem?, All, ◌>>=◌, ok, ℕ, ◌+◌, ◌-◌, ◌/◌, ◌<◌,
  ◌≡◌, refl, ap, ◌∙◌, inl, inr, true, Option, none, some, List, [], ◌∷◌, ◌++◌, map, arith,
}
use serverless_gateway.Words.{u128_mod, add128, as_u128}
use serverless_gateway.Constants.{gateway_stake_adjustment_factor}
use serverless_gateway.Model.{GatewayData}
use serverless_gateway.Selection.{
  Distribution, no_stake, is_eligible, push_gateway, add_gateway, distribute,
}
use serverless_gateway.Selection.Search.{Rising, first_reaching}
use mathlib.Core.List.{append-nil, append_assoc}

-- The address and the weight of each gateway that serves the chain.
unfoldable pub tickets : ℕ → List GatewayData → List (ℕ × ℕ)
tickets chain [] = []
tickets chain (g ∷ gs) =
    if is_eligible chain g
    then (g.address, g.stake_amount / gateway_stake_adjustment_factor) ∷ tickets chain gs
    else tickets chain gs

unfoldable pub total_weight : List (ℕ × ℕ) → ℕ
total_weight [] = 0
total_weight ((a, w) ∷ ts) = w + total_weight ts

-- Who holds the ticket of this number, where the tickets are numbered from 1.
unfoldable pub owner : List (ℕ × ℕ) → ℕ → Option ℕ
owner [] r = none
owner ((a, w) ∷ ts) r = if leb r w then some a else owner ts (r - w)

unfoldable pub running : ℕ → List (ℕ × ℕ) → List ℕ
running acc [] = []
running acc ((a, w) ∷ ts) = (acc + w) ∷ running (acc + w) ts

abbrev pub Positive : List (ℕ × ℕ) → Type 0
Positive = All (λ t. 0 < t.1)

-- A gateway is eligible only with a stake above the minimum, hence of at least one unit.
pub tickets-Positive : (chain : ℕ) (gs : List GatewayData) → Positive (tickets chain gs)
unfolding tickets is_eligible
tickets-Positive chain [] = tt
tickets-Positive chain (g ∷ gs) = ground (arith, tickets-Positive chain gs)

pub running-Rising : (acc : ℕ) (ts : List (ℕ × ℕ)) → Positive ts → Rising acc (running acc ts)
unfolding running
running-Rising acc [] h = tt
running-Rising acc ((a, w) ∷ ts) h = (omega arith, running-Rising (acc + w) ts h.1)

push_gateway-exact :
    (a w : ℕ) (d : Distribution)
    → d.total + w < u128_mod
    → (as_u128 w >>= push_gateway a d)
      ≡ ok (record {
        addresses = d.addresses ++ a ∷ [];
        stakes = d.stakes ++ (d.total + w) ∷ [];
        total = d.total + w;
      })
push_gateway-exact a w d h =
    let small : ltb w u128_mod ≡ true = lt→ltb w u128_mod (omega arith) in
    let exact : add128 d.total w ≡ d.total + w = omega arith in rw (small, exact)

-- Without overflow the loop computes the running totals of the tickets.
abbrev Collected : Distribution → List (ℕ × ℕ) → Distribution
Collected d ts = record {
  addresses = d.addresses ++ map (λ t. t.0) ts;
  stakes = d.stakes ++ running d.total ts;
  total = d.total + total_weight ts;
}

Collected-nil : (d : Distribution) → d ≡ Collected d []
unfolding running total_weight
Collected-nil d = ground (arith, append-nil d.addresses, append-nil d.stakes)

Collected-cons :
    (d : Distribution) (a w : ℕ) (ts : List (ℕ × ℕ))
    → Collected
        (record {
          addresses = d.addresses ++ a ∷ [];
          stakes = d.stakes ++ (d.total + w) ∷ [];
          total = d.total + w;
        })
        ts
      ≡ Collected d ((a, w) ∷ ts)
unfolding running total_weight
Collected-cons d a w ts = ground (
  arith,
  append_assoc d.addresses (a ∷ []) (map (λ t. t.0) ts),
  append_assoc d.stakes ((d.total + w) ∷ []) (running (d.total + w) ts),
)

distribute-tickets :
    (chain : ℕ) (gs : List GatewayData) (d : Distribution)
    → d.total + total_weight (tickets chain gs) < u128_mod
    → distribute chain gs d ≡ ok (Collected d (tickets chain gs))
unfolding distribute add_gateway tickets
distribute-tickets chain [] d h = ap ok (Collected-nil d)
distribute-tickets chain (g ∷ gs) d h = elim (Bool-cases (is_eligible chain g)) [
  | inl takes ↦
      let w : ℕ = g.stake_amount / gateway_stake_adjustment_factor in
      let h' : d.total + (w + total_weight (tickets chain gs)) < u128_mod =
        unfold total_weight in rw takes at h in
      rw (takes, add_gateway, push_gateway-exact g.address w d (omega (arith, h')))
        (distribute-tickets chain gs _ (omega (arith, h'))
          ∙ ap ok (Collected-cons d g.address w (tickets chain gs)))
  | inr out ↦
      let h' : d.total + total_weight (tickets chain gs) < u128_mod = rw out at h in
      rw (out, add_gateway) (distribute-tickets chain gs d h')
]

-- The first running total to reach a number marks the holder of that ticket.
pub first_reaching-owner :
    (acc : ℕ) (ts : List (ℕ × ℕ)) (r : ℕ)
    → acc < r
    → get_elem? (map (λ t. t.0) ts) (first_reaching (running acc ts) r) ≡ owner ts (r - acc)
unfolding running first_reaching owner
first_reaching-owner acc [] r h = refl
first_reaching-owner acc ((a, w) ∷ ts) r h = ground (
  arith,
  first_reaching-owner (acc + w) ts r,
  ap (owner ts) (let e : r - (acc + w) ≡ r - acc - w = omega arith in e),
)

-- What the loop leaves after all gateways.
abbrev pub Dealt : List (ℕ × ℕ) → Distribution
Dealt ts = record { addresses = map (λ t. t.0) ts; stakes = running 0 ts; total = total_weight ts }

pub distribute-Dealt :
    (chain : ℕ) (gs : List GatewayData)
    → total_weight (tickets chain gs) < u128_mod
    → distribute chain gs no_stake ≡ ok (Dealt (tickets chain gs))
distribute-Dealt chain gs h = rw (distribute-tickets chain gs no_stake (omega arith)) (
    let e : 0 + total_weight (tickets chain gs) ≡ total_weight (tickets chain gs) = omega arith in
    rw e)
