-- ===== src/Transactions/Sends.antt =====
-- How often a transaction is sent.
use serverless_gateway.Prelude.{
  ◌==◌, ==→eq, ==→ne, Bool-cases, ℕ, zero, suc, ◌+◌, ◌-◌, ◌≤◌, ◌<◌, ◌≡◌, refl, ap, ◌∙◌, ◌≢◌, inl,
  inr, true, false, arith,
}
use serverless_gateway.Transactions.{
  Sent, Ended, after_send, nonce_error, send_error, pending, Transaction, TxnReadings,
  send_attempts, submit, confirmed_txn, unconfirmed_txn, rejected_txn,
}

-- What holds of the attempts from `i` on, with `left` of them left.
record IsRetried (send : ℕ → Sent) (i left : ℕ) (sent : ℕ × Ended) : Type 0 where
  begins : i ≤ sent.0
  ends : sent.0 ≤ i + left
  retried : (j : ℕ) → i ≤ j → j + 1 < sent.0 → send j ≡ nonce_error
  stopped : sent.0 < i + left → (j : ℕ) × (j + 1 ≡ sent.0) × (send j ≢ nonce_error)
  tried : 0 < left → i < sent.0

last-IsRetried :
    (send : ℕ → Sent) (i left : ℕ) (ended : Ended)
    → send i ≢ nonce_error
    → IsRetried send i (suc left) (i + 1, ended)
last-IsRetried send i left ended h = record {
  begins = omega arith;
  ends = omega arith;
  retried = λ j from to. absurd (omega arith);
  stopped = λ early. (i, refl, h);
  tried = λ some_left. omega arith;
}

after_send-IsRetried :
    (send : ℕ → Sent) (i left : ℕ) (answer : Sent) (others : ℕ × Ended)
    → send i ≡ answer
    → IsRetried send (suc i) left others
    → IsRetried send i (suc left) (after_send i answer others)
unfolding after_send
after_send-IsRetried send i left nonce_error others e h = record {
  begins = omega (arith, h.begins);
  ends = omega (arith, h.ends);
  retried = λ j from to. elim (Bool-cases (j == i)) [
    | inl same ↦ ap send (==→eq j i same) ∙ e
    | inr later ↦ h.retried j (omega (arith, ==→ne j i later)) to
  ];
  stopped = λ early. h.stopped (omega arith);
  tried = λ some_left. omega (arith, h.begins);
}
after_send-IsRetried send i left send_error others e h =
    last-IsRetried send i left rejected_txn (λ same. cc)
after_send-IsRetried send i left (pending true) others e h =
    last-IsRetried send i left confirmed_txn (λ same. cc)
after_send-IsRetried send i left (pending false) others e h =
    last-IsRetried send i left unconfirmed_txn (λ same. cc)

send_attempts-IsRetried :
    (send : ℕ → Sent) (i left : ℕ) → IsRetried send i left (send_attempts send i left)
unfolding send_attempts
send_attempts-IsRetried send i zero = record {
  begins = omega arith;
  ends = omega arith;
  retried = λ j from to. absurd (omega arith);
  stopped = λ early. absurd (omega arith);
  tried = λ some_left. absurd (omega arith);
}
send_attempts-IsRetried send i (suc left) =
    after_send-IsRetried send i left (send i) (send_attempts send (suc i) left) refl
      (send_attempts-IsRetried send (suc i) left)

-- A transaction that is submitted is sent once, twice or three times. Each attempt but the last was
-- answered with an error of the nonce, and if there were fewer than three, the last was not.
pub submit_retries :
    (r : TxnReadings) (txn : Transaction)
    → let n = (submit r txn).attempts in
      (1 ≤ n)
      × (n ≤ 3)
      × ((j : ℕ) → j + 1 < n → r.send j ≡ nonce_error)
      × (n < 3 → r.send (n - 1) ≢ nonce_error)
unfolding submit
submit_retries r txn =
    let h = send_attempts-IsRetried r.send 0 3 in
    (
      h.tried (omega arith),
      h.ends,
      λ j before. h.retried j (omega arith) before,
      λ early.
          let (j, last, other) = h.stopped early in
          let same : (send_attempts r.send 0 3).0 - 1 ≡ j = omega arith in rw same other,
    )
