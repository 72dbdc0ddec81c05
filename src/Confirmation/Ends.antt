-- ===== src/Confirmation/Ends.antt =====
-- The loop of the confirmation ends.
use serverless_gateway.Chain.{Log}
use serverless_gateway.Constants.{max_tx_receipt_retries}
use serverless_gateway.Prelude.{
  leb, ◌==◌, leb→le, not-leb→lt, Bool-cases, Option-cases, ℕ, zero, suc, ◌+◌, ◌≤◌, ◌<◌, ◌≡◌, refl,
  ap, ◌∙◌, ◌⊎◌, inl, inr, true, false, Option, none, some, arith,
}
use serverless_gateway.Confirmation.{
  confirm_round, Receipt, ConfirmReadings, mark_removed, load_last_seen, on_receipt,
  on_block_number, confirmed_at, confirm_event, receipt_present, receipt_absent, receipt_error,
  waiting, left_loop, Confirming, or_zero, confirm_rounds,
}

module _ (log : Log) (confirmation_blocks : ℕ) (r : ConfirmReadings) where
  -- A round that does not leave the loop, with the retries and `last_seen_block` after it. From
  -- round `k` on, the block number after it is enough, and one that was enough has cost a retry.
  record Waits (k n retries last_seen retries' seen : ℕ) : Type 0 where
    round : confirm_round log confirmation_blocks r n retries last_seen ≡ waiting retries' seen
    few : retries' < max_tx_receipt_retries
    enough : k ≤ n → confirmed_at log confirmation_blocks ≤ seen
    costs : k ≤ n → confirmed_at log confirmation_blocks ≤ last_seen → retries < retries'

  abbrev AfterRound : ℕ → ℕ → ℕ → ℕ → Type 0
  AfterRound k n retries last_seen =
      ((log' : Log) × (seen : ℕ) × (confirm_round log confirmation_blocks r n retries last_seen
          ≡ left_loop log' seen))
      ⊎ ((retries' : ℕ) × (seen : ℕ) × Waits k n retries last_seen retries' seen)

  abbrev IsEnough : Option ℕ → Type 0
  IsEnough number = (n : ℕ) × (number ≡ some n) × (confirmed_at log confirmation_blocks ≤ n)

  load_last_seen-enough :
      (k n last_seen : ℕ)
      → ((i n : ℕ) → k ≤ i → r.stored i ≡ some n → confirmed_at log confirmation_blocks ≤ n)
      → k ≤ n
      → confirmed_at log confirmation_blocks ≤ last_seen
      → confirmed_at log confirmation_blocks ≤ load_last_seen (r.stored n) last_seen
  unfolding load_last_seen
  load_last_seen-enough k n last_seen stored late enough = elim (Option-cases (r.stored n)) [
    | inl nothing ↦ rw nothing enough
    | inr (v, written) ↦ rw written (stored n v late written)
  ]

  confirm_round-receipt :
      (k n retries last_seen : ℕ)
      → ((i n : ℕ) → k ≤ i → r.stored i ≡ some n → confirmed_at log confirmation_blocks ≤ n)
      → retries < max_tx_receipt_retries
      → leb (confirmed_at log confirmation_blocks) (load_last_seen (r.stored n) last_seen) ≡ true
      → (receipt : Receipt) → r.get_transaction_receipt n ≡ receipt
      → AfterRound k n retries last_seen
  unfolding confirm_round on_receipt
  confirm_round-receipt k n retries last_seen stored few now receipt_present e =
      inl (log, load_last_seen (r.stored n) last_seen, rw (now, e) refl)
  confirm_round-receipt k n retries last_seen stored few now receipt_absent e =
      inl (mark_removed log, load_last_seen (r.stored n) last_seen, rw (now, e) refl)
  confirm_round-receipt k n retries last_seen stored few now receipt_error e =
      elim (Bool-cases (leb max_tx_receipt_retries (retries + 1))) [
        | inl last ↦
            inl (mark_removed log, load_last_seen (r.stored n) last_seen, rw (now, e, last) refl)
        | inr more ↦ inr (
          retries + 1,
          load_last_seen (r.stored n) last_seen,
          record {
            round = rw (now, e, more) refl;
            few = not-leb→lt max_tx_receipt_retries (retries + 1) more;
            enough = λ late.
                leb→le (confirmed_at log confirmation_blocks)
                  (load_last_seen (r.stored n) last_seen) now;
            costs = λ late was. omega arith;
          },
        )
      ]

  confirm_round-number :
      (k n retries last_seen : ℕ)
      → ((i n : ℕ) → k ≤ i → r.stored i ≡ some n → confirmed_at log confirmation_blocks ≤ n)
      → retries < max_tx_receipt_retries
      → leb (confirmed_at log confirmation_blocks) (load_last_seen (r.stored n) last_seen) ≡ false
      → (number : Option ℕ) → r.get_block_number n ≡ number
      → (k ≤ n → IsEnough number)
      → AfterRound k n retries last_seen
  unfolding confirm_round on_block_number
  confirm_round-number k n retries last_seen stored few early none e fetched = inr (
    retries,
    load_last_seen (r.stored n) last_seen,
    record {
      round = rw (early, e) refl;
      few = few;
      enough = λ late. let (b, known, high) = fetched late in absurd (cc);
      costs = λ late was.
          let high = load_last_seen-enough k n last_seen stored late was in
          let low =
            not-leb→lt (confirmed_at log confirmation_blocks)
              (load_last_seen (r.stored n) last_seen) early in
          absurd (omega arith);
    },
  )
  confirm_round-number k n retries last_seen stored few early (some b) e fetched = inr (
    retries,
    b,
    record {
      round = rw (early, e) refl;
      few = few;
      enough = λ late. let (b', known, high) = fetched late in ground arith;
      costs = λ late was.
          let high = load_last_seen-enough k n last_seen stored late was in
          let low =
            not-leb→lt (confirmed_at log confirmation_blocks)
              (load_last_seen (r.stored n) last_seen) early in
          absurd (omega arith);
    },
  )

  confirm_round-AfterRound :
      (k n retries last_seen : ℕ)
      → ((i n : ℕ) → k ≤ i → r.stored i ≡ some n → confirmed_at log confirmation_blocks ≤ n)
      → ((i : ℕ) → k ≤ i → IsEnough (r.get_block_number i))
      → retries < max_tx_receipt_retries
      → AfterRound k n retries last_seen
  confirm_round-AfterRound k n retries last_seen stored fetched few =
      elim (Bool-cases
        (leb (confirmed_at log confirmation_blocks) (load_last_seen (r.stored n) last_seen))) [
          | inl now ↦
              confirm_round-receipt k n retries last_seen stored few now
                (r.get_transaction_receipt n) refl
          | inr early ↦
              confirm_round-number k n retries last_seen stored few early (r.get_block_number n)
                refl (fetched n)
        ]

  abbrev Ends : ℕ → ℕ → Confirming → Type 0
  Ends fuel n place =
      (log' : Log) × (seen : ℕ) × (confirm_rounds log confirmation_blocks r fuel n place
        ≡ some (log', seen))

  Ends-round :
      (fuel n retries last_seen : ℕ) (place : Confirming)
      → confirm_round log confirmation_blocks r n retries last_seen ≡ place
      → Ends fuel (suc n) place
      → Ends (suc fuel) n (waiting retries last_seen)
  unfolding confirm_rounds
  Ends-round fuel n retries last_seen place e (log', seen, rest) =
      (log', seen, ap (confirm_rounds log confirmation_blocks r fuel (suc n)) e ∙ rest)

  Ends-left_loop : (fuel n : ℕ) (log' : Log) (seen : ℕ) → Ends fuel n (left_loop log' seen)
  unfolding confirm_rounds
  Ends-left_loop fuel n log' seen = (log', seen, refl)

  -- From an enough block number on, each round costs a retry.
  Ends-enough :
      (k fuel n retries last_seen : ℕ)
      → ((i n : ℕ) → k ≤ i → r.stored i ≡ some n → confirmed_at log confirmation_blocks ≤ n)
      → ((i : ℕ) → k ≤ i → IsEnough (r.get_block_number i))
      → k ≤ n
      → confirmed_at log confirmation_blocks ≤ last_seen
      → retries < max_tx_receipt_retries
      → max_tx_receipt_retries ≤ retries + fuel
      → Ends fuel n (waiting retries last_seen)
  Ends-enough k zero n retries last_seen stored fetched late enough few fuelled =
      absurd (omega arith)
  Ends-enough k (suc fuel) n retries last_seen stored fetched late enough few fuelled =
      elim (confirm_round-AfterRound k n retries last_seen stored fetched few) [
        | inl (log', seen, out) ↦
            Ends-round fuel n retries last_seen _ out (Ends-left_loop fuel (suc n) log' seen)
        | inr (retries', seen, w) ↦
            let cost = w.costs late enough in
            Ends-round fuel n retries last_seen _ w.round (
              Ends-enough k fuel (suc n) retries' seen stored fetched (omega arith) (w.enough late)
                w.few (omega arith))
      ]

  Ends-from :
      (k fuel n retries last_seen : ℕ)
      → ((i n : ℕ) → k ≤ i → r.stored i ≡ some n → confirmed_at log confirmation_blocks ≤ n)
      → ((i : ℕ) → k ≤ i → IsEnough (r.get_block_number i))
      → n ≤ k
      → retries < max_tx_receipt_retries
      → k + 6 ≤ n + fuel
      → Ends fuel n (waiting retries last_seen)
  Ends-from k zero n retries last_seen stored fetched early few fuelled = absurd (omega arith)
  Ends-from k (suc fuel) n retries last_seen stored fetched early few fuelled =
      elim (confirm_round-AfterRound k n retries last_seen stored fetched few) [
        | inl (log', seen, out) ↦
            Ends-round fuel n retries last_seen _ out (Ends-left_loop fuel (suc n) log' seen)
        | inr (retries', seen, w) ↦
            Ends-round fuel n retries last_seen _ w.round (elim (Bool-cases (leb k n)) [
              | inl there ↦
                  let late = leb→le k n there in
                  Ends-enough k fuel (suc n) retries' seen stored fetched (omega arith)
                    (w.enough late) w.few (omega arith)
              | inr before ↦
                  let more = not-leb→lt k n before in
                  Ends-from k fuel (suc n) retries' seen stored fetched (omega arith) w.few
                    (omega arith)
            ])
      ]

-- Where each block number that is stored or fetched is enough from round `k` on, the confirmation
-- ends within `k + 6` rounds, whatever the receipts are.
pub confirm_event-ends :
    (log : Log) (confirmation_blocks last_seen : ℕ) (r : ConfirmReadings) (k : ℕ)
    → ((i n : ℕ) → k ≤ i → r.stored i ≡ some n → confirmed_at log confirmation_blocks ≤ n)
    → ((i : ℕ)
        → k ≤ i
        → (n : ℕ) × (r.get_block_number i ≡ some n) × (confirmed_at log confirmation_blocks ≤ n))
    → (log' : Log) × (seen : ℕ) × (confirm_event log confirmation_blocks last_seen r (k + 6)
        ≡ some (log', seen))
unfolding confirm_event
confirm_event-ends log blocks last_seen r k stored fetched =
    elim (Bool-cases (or_zero log.transaction_hash == 0)) [
      | inl nothing ↦ rw nothing (mark_removed log, last_seen, refl)
      | inr hashed ↦ rw hashed (
          Ends-from log blocks r k (k + 6) 0 0 last_seen stored fetched (omega arith) (omega arith)
            (omega arith))
    ]
