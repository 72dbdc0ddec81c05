-- ===== src/Samples/Jobs.antt =====
-- The jobs of the sample client are tracked, and its first job has a response.
use serverless_gateway.Chain.{Token, Abi}
use serverless_gateway.Prelude.{ℕ, refl, [], ◌∷◌, arith}
use serverless_gateway.Samples.{a_client, reading, a_job, given_to}
use serverless_gateway.Jobs.Tracked.{Relayable, Other, IsTracked}

pub a_job-Relayable : Relayable a_job
a_job-Relayable = record { lower = omega arith; upper = omega arith; kind = refl }

pub given_to-Relayable : (g : ℕ) → Relayable (given_to g)
given_to-Relayable g = record { lower = omega arith; upper = omega arith; kind = refl }

pub watched-Other : Other 7 (record (given_to 9) { job_id = 261 })
watched-Other = (
  record { lower = omega arith; upper = omega arith; kind = refl },
  (9, refl, (λ e. omega (arith, e)), λ e. omega (arith, e)),
)

pub a_client-IsTracked : IsTracked a_client
a_client-IsTracked = record {
  active = ((refl, (given_to-Relayable 7, refl)), tt);
  current = ((refl, watched-Other), tt);
  waiting = tt;
  sent = tt;
  tasks = tt;
}

abbrev pub response : Abi
response = reading (Token.bytes (1 ∷ []) ∷ Token.uint 30 ∷ Token.uint 0 ∷ [])
