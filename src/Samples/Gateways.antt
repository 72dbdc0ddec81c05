-- ===== src/Samples/Gateways.antt =====
-- The stakes of the sample gateways fit.
use serverless_gateway.Model.{GatewayData}
use serverless_gateway.Table.{Table, lookup, contains_key}
use serverless_gateway.Prelude.{◌==◌, Bool-cases, ◌≡◌, refl, inl, inr, [], ◌∷◌, arith}
use serverless_gateway.Samples.{a_client, three_gateways, gateway_at}
use serverless_gateway.Selection.{is_eligible}
use serverless_gateway.Selection.Ticket.{tickets, total_weight}
use serverless_gateway.Selection.Total.{StakeFits}

pub weights : total_weight (tickets 5 three_gateways) ≡ 500
unfolding total_weight tickets is_eligible contains_key lookup
weights = refl

abbrev known_cycle : Table GatewayData
known_cycle = (7, gateway_at 7 200) ∷ (8, gateway_at 8 100) ∷ (9, gateway_at 9 300) ∷ []

pub a_client-StakeFits : StakeFits a_client 5
unfolding lookup
a_client-StakeFits cycle state known = elim (Bool-cases (cycle == 3)) [
  | inl same ↦
      let e : known_cycle ≡ state = cc (rw same at known) in rw (← e) (rw weights (omega arith))
  | inr other ↦ cc (rw other at known)
]
