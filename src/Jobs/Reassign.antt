-- ===== src/Jobs/Reassign.antt =====
-- `gateway_reassigned_handler`: a tracked job gets its next try, or is given up.
use serverless_gateway.Model.{Job, ContractsClient, relay_handler}
use serverless_gateway.Chain.{Log, Token, Abi, topic, uint_at, address_at}
use serverless_gateway.Constants.{max_gateway_retries}
use serverless_gateway.Table.Laws.{lookup-All}
use serverless_gateway.Words.{u8_mod, add8, as_u8, low_u64}
use serverless_gateway.Prelude.{
  ltb, ◌==◌, if◌then◌else◌, not-ltb→le, ==→eq, ==→ne, Bool-cases, Option-cases, All-append, unwrap,
  >>=-eq-ok, ok-injective, ok, ℕ, ◌+◌, ◌≤◌, ◌<◌, ◌≡◌, refl, ◌∙◌, ◌≢◌, inl, inr, none, some, [], ◌∷◌,
  ◌++◌, arith,
}
use serverless_gateway.Jobs.{
  retry, cancel_job_with_job_id, gateway_reassigned_types, tracked_job, gateway_reassigned_handler,
}
use serverless_gateway.Jobs.Tracked.{Relayable, IsTracked}
use serverless_gateway.Jobs.Handlers.{cancel_job_with_job_id-IsTracked}

next_try : (n : ℕ) → n ≤ max_gateway_retries → add8 n 1 ≡ n + 1
next_try n h = omega arith

-- A retry is a second try.
retry-IsTracked :
    (c : ContractsClient) (id : ℕ) (j : Job) → IsTracked c → Relayable j → IsTracked (retry c id j)
unfolding retry
retry-IsTracked c id j t r =
    let left : IsTracked (cancel_job_with_job_id c id) = cancel_job_with_job_id-IsTracked c id t in
    elim (Bool-cases (ltb max_gateway_retries (add8 j.sequence_number 1))) [
      | inl spent ↦ rw spent left
      | inr more ↦
          let again : Relayable
              (record j { sequence_number = add8 j.sequence_number 1; gateway_address = none }) =
            record {
              lower = omega (arith, next_try j.sequence_number r.upper);
              upper = not-ltb→le _ _ more;
              kind = r.kind;
            } in
          rw more (record {
            active = left.active;
            current = left.current;
            waiting = left.waiting;
            sent = left.sent;
            tasks = All-append _ (cancel_job_with_job_id c id).spawned _ left.tasks (again, tt);
          })
    ]

tracked_job-Relayable :
    (c : ContractsClient) (old id : ℕ) (j : Job)
    → IsTracked c
    → tracked_job c old id ≡ some j
    → Relayable j
unfolding tracked_job
tracked_job-Relayable c old id j t e = elim (Bool-cases (old == c.enclave_address)) [
  | inl own ↦ (lookup-All _ id j c.active_jobs t.active (rw own at e)).1.0
  | inr foreign ↦ (lookup-All _ id j c.current_jobs t.current (rw foreign at e)).1.0
]

reassign-IsTracked :
    (c c' : ContractsClient) (id sequence_number : ℕ) (j : Job)
    → IsTracked c
    → Relayable j
    → (if j.sequence_number == sequence_number then ok (retry c id j) else ok c) ≡ ok c'
    → IsTracked c'
reassign-IsTracked c c' id n j t r e = elim (Bool-cases (j.sequence_number == n)) [
  | inl same ↦ rw (ok-injective (rw same at e)) at (retry-IsTracked c id j t r)
  | inr stale ↦ rw (ok-injective (rw stale at e)) at t
]

pub gateway_reassigned_handler-IsTracked :
    (abi : Abi) (c c' : ContractsClient) (log : Log)
    → IsTracked c
    → gateway_reassigned_handler abi c log ≡ ok c'
    → IsTracked c'
unfolding gateway_reassigned_handler
gateway_reassigned_handler-IsTracked abi c c' log t e =
    let (id, _, e₁) = >>=-eq-ok (topic log 1) _ e in
    let (decoded, _, e₂) =
      >>=-eq-ok (unwrap (abi.decode gateway_reassigned_types log.payload)) _ e₁ in
    let (old, _, e₃) = >>=-eq-ok (address_at decoded 0) _ e₂ in
    let (n, _, e₄) = >>=-eq-ok (uint_at decoded 2) _ e₃ in
    elim (Option-cases (tracked_job c old id)) [
      | inl unknown ↦ rw (ok-injective (rw unknown at e₄)) at t
      | inr (j, found) ↦
          reassign-IsTracked c c' id (as_u8 (low_u64 n)) j t
            (tracked_job-Relayable c old id j t found) (rw found at e₄)
    ]

seconds : (m n : ℕ) → 1 ≤ m → m ≤ max_gateway_retries → m ≡ n → n ≢ 1 → m ≡ 2
seconds m n lower upper e h = ground arith

-- The event names a tracked job at its sequence number. On the first try the job is cancelled and
-- handed to the relay handler for its second try, with no gateway; after the second it is cancelled
-- only. An event with another sequence number changes nothing.
pub gateway_reassigned_handler-retry :
    (abi : Abi) (c : ContractsClient) (log : Log) (id old new n : ℕ) (j : Job)
    → IsTracked c
    → topic log 1 ≡ ok id
    → abi.decode gateway_reassigned_types log.payload
      ≡ some (Token.address old ∷ Token.address new ∷ Token.uint n ∷ [])
    → n < u8_mod
    → tracked_job c old id ≡ some j
    → let cancelled = cancel_job_with_job_id c id in
      gateway_reassigned_handler abi c log ≡ (
        if j.sequence_number == n
        then if n == 1
          then ok (record cancelled {
            spawned =
                cancelled.spawned
                ++ relay_handler (record j { sequence_number = 2; gateway_address = none }) ∷ [];
          })
          else ok cancelled
        else ok c)
unfolding gateway_reassigned_handler retry
gateway_reassigned_handler-retry abi c log id old new n j t named decoded small found =
    let byte : as_u8 (low_u64 n) ≡ n = omega arith in
    let tried : Relayable j = tracked_job-Relayable c old id j t found in
    let reached : gateway_reassigned_handler abi c log
        ≡ (if j.sequence_number == n then ok (retry c id j) else ok c) =
      rw (named, decoded, found, byte) refl in
    reached ∙ elim (Bool-cases (j.sequence_number == n)) [
      | inr stale ↦ rw stale refl
      | inl same ↦ rw same (elim (Bool-cases (n == 1)) [
        | inl first ↦
            let e : j.sequence_number ≡ 1 = ==→eq _ _ same ∙ ==→eq _ _ first in rw (e, first) refl
        | inr second ↦
            rw
              (
                seconds j.sequence_number n tried.lower tried.upper (==→eq _ _ same)
                    (==→ne _ _ second),
                second,
              )
              refl
      ])
    ]
