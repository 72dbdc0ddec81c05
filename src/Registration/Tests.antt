-- ===== src/Registration/Tests.antt =====
-- The registration at concrete inputs.
use serverless_gateway.Model.{ChainSet}
use serverless_gateway.Prelude.{ok, ℕ, ◌≡◌, refl, inl, inr, false, ◌&&◌, none, some, [], ◌∷◌}
use serverless_gateway.Table.{remove}
use serverless_gateway.Samples.{log_of}
use serverless_gateway.Registration.{
  RegisteredData, common_chain, request_chain, listen_common_chain, note_registered,
  await_registered, wait_for_registration,
}
use serverless_gateway.Registration.Laws.{
  wait_for_registration-completes, common_reported, all_reported,
}

abbrev from_common : RegisteredData
from_common = record { register_type = common_chain; chain_id = none }

abbrev from_chain : ℕ → RegisteredData
from_chain n = record { register_type = request_chain; chain_id = some n }

abbrev two_chains : ChainSet
two_chains = (5, tt) ∷ (6, tt) ∷ []

wait_for_registration-completes_example :
    wait_for_registration two_chains (from_chain 6 ∷ from_common ∷ from_chain 5 ∷ [])
    ≡ ok (
        common_reported (from_chain 6 ∷ from_common ∷ from_chain 5 ∷ [])
        && all_reported two_chains (from_chain 6 ∷ from_common ∷ from_chain 5 ∷ []))
wait_for_registration-completes_example =
    wait_for_registration-completes two_chains (from_chain 6 ∷ from_common ∷ from_chain 5 ∷ [])
      (inr (refl, (6, refl)), (inl refl, (inr (refl, (5, refl)), tt)))

one_missing : wait_for_registration two_chains (from_common ∷ from_chain 5 ∷ []) ≡ ok false
unfolding wait_for_registration await_registered note_registered remove
one_missing = refl

-- The first log that is not removed is reported, and the client starts at its block.
reported :
    listen_common_chain 10 (record (log_of []) { removed = none } ∷ log_of [] ∷ [])
    ≡ some (from_common, 90)
unfolding listen_common_chain
reported = refl
