-- ===== src/Selection/Tests.antt =====
-- The choice of a gateway at concrete inputs.
use serverless_gateway.Samples.Gateways.{weights, a_client-StakeFits}
use serverless_gateway.Table.{lookup, contains_key}
use serverless_gateway.Words.{as_u64}
use serverless_gateway.Prelude.{◌>>=◌, ok, ℕ, ◌≡◌, refl, some, [], ◌∷◌, arith}
use serverless_gateway.Selection.{
  choose, cycle_at, Distribution, no_stake, is_eligible, add_gateway, distribute, skip_draws, draw,
  narrow, binary_search, pick, select_in_cycle, select_gateway_for_job_id,
}
use serverless_gateway.Samples.{first_draw, three_gateways, a_job, a_client}
use serverless_gateway.Selection.Weighted.{choose-owner, wins, weight_of, wins-weight_of}
use serverless_gateway.Selection.Total.{Explained, select_gateway_for_job_id-Explained}
use serverless_gateway.Selection.Ticket.{tickets, total_weight, owner}
use serverless_gateway.Selection.Search.{first_reaching, binary_search-first_reaching}
use serverless_gateway.Selection.Cases.{Selected, select_gateway_for_job_id-Selected}

choose-owner_example :
    (a : ℕ) × (choose first_draw 3 a_job three_gateways 0 1 ≡ ok a)
    × (owner
          (tickets 5 three_gateways)
          (draw first_draw 0 1 (total_weight (tickets 5 three_gateways)))
        ≡ some a)
choose-owner_example =
    choose-owner first_draw 3 a_job three_gateways 0 1 (rw weights (omega arith))
      (rw weights (omega arith))

abbrev dealt : Distribution
dealt = record { addresses = 7 ∷ 9 ∷ []; stakes = 200 ∷ 500 ∷ []; total = 500 }

collected : distribute 5 three_gateways no_stake ≡ ok dealt
unfolding distribute add_gateway is_eligible contains_key lookup
collected = refl

wins-weight_of_example : wins dealt 9 500 ≡ weight_of 9 (tickets 5 three_gateways)
wins-weight_of_example =
    wins-weight_of 5 three_gateways dealt 9 (rw weights (omega arith)) collected

select_gateway_for_job_id-Explained_example :
    (job_cycle current : ℕ) × (cycle_at a_client 35 ≡ ok job_cycle)
    × (cycle_at a_client 38 ≡ ok current)
    × Explained a_client a_job job_cycle current
        (select_gateway_for_job_id first_draw a_client 38 a_job 35 1)
select_gateway_for_job_id-Explained_example =
    select_gateway_for_job_id-Explained first_draw a_client 38 a_job 35 1 (omega arith)
      (omega arith) a_client-StakeFits

chosen : select_gateway_for_job_id first_draw a_client 38 a_job 35 1 ≡ ok (7, a_client)
unfolding select_gateway_for_job_id cycle_at select_in_cycle lookup choose distribute add_gateway
    is_eligible contains_key pick draw skip_draws binary_search narrow
chosen = refl

select_gateway_for_job_id-Selected_example :
    (job_cycle : ℕ) × ((as_u64 a_job.starttime >>= cycle_at a_client) ≡ ok job_cycle)
    × Selected a_client a_job job_cycle 7 a_client
select_gateway_for_job_id-Selected_example =
    select_gateway_for_job_id-Selected first_draw a_client 38 a_job 35 1 7 a_client chosen

binary_search-first_reaching_example :
    binary_search (200 ∷ 500 ∷ []) 201 ≡ first_reaching (200 ∷ 500 ∷ []) 201
binary_search-first_reaching_example =
    binary_search-first_reaching 0 (200 ∷ 500 ∷ []) 201 (omega arith, (omega arith, tt))
