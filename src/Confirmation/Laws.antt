-- ===== src/Confirmation/Laws.antt =====
-- A log that comes through was confirmed, and the loop ends.
use serverless_gateway.Chain.{Log, is_removed}
use serverless_gateway.Constants.{max_tx_receipt_retries}
use serverless_gateway.Prelude.{
  leb, ◌==◌, leb→le, ==→ne, Bool-cases, ℕ, zero, suc, ◌+◌, ◌≤◌, ◌<◌, ◌≡◌, refl, sym, ◌⊎◌, inl, inr,
  true, false, Option, none, some, arith,
}
use serverless_gateway.Confirmation.{
  confirm_round, Receipt, ConfirmReadings, Confirming, load_last_seen, on_receipt, on_block_number,
  confirmed_at, confirm_rounds, receipt_present, receipt_absent, receipt_error, left_loop,
  confirm_event, waiting, mark_removed, or_zero,
}

some-pair {ℓ κ} :
    {A : Type ℓ} {B : Type κ} {a c : A} {b d : B}
    → ◌≡◌ {A = Option (A × B)} (some (a, b)) (some (c, d))
    → (a ≡ c) × (b ≡ d)
some-pair h = (cc, cc)

-- What is known where the loop stands, before round `n`.
module _ (log : Log) (confirmation_blocks : ℕ) (r : ConfirmReadings) where
  abbrev Confirmed : ℕ → Log → ℕ → Type 0
  Confirmed n log' last_seen =
      (log' ≡ log)
      × (confirmed_at log confirmation_blocks ≤ last_seen)
      × ((i : ℕ) × (i < n) × (r.get_transaction_receipt i ≡ receipt_present))

  abbrev IsConfirming : ℕ → Confirming → Type 0
  IsConfirming n (waiting retries last_seen) = Unit
  IsConfirming n (left_loop log' last_seen) =
      (log'.removed ≡ some true) ⊎ Confirmed n log' last_seen

  on_receipt-IsConfirming :
      (n retries seen : ℕ) (receipt : Receipt)
      → confirmed_at log confirmation_blocks ≤ seen
      → r.get_transaction_receipt n ≡ receipt
      → IsConfirming (suc n) (on_receipt log retries seen receipt)
  unfolding on_receipt
  on_receipt-IsConfirming n retries seen receipt_present enough e =
      inr (refl, enough, (n, omega arith, e))
  on_receipt-IsConfirming n retries seen receipt_absent enough e = inl refl
  on_receipt-IsConfirming n retries seen receipt_error enough e =
      elim (Bool-cases (leb max_tx_receipt_retries (retries + 1))) [
        | inl last ↦ rw last (inl refl)
        | inr more ↦ rw more tt
      ]

  on_block_number-IsConfirming :
      (n retries seen : ℕ) (number : Option ℕ)
      → IsConfirming n (on_block_number retries seen number)
  unfolding on_block_number
  on_block_number-IsConfirming n retries seen none = tt
  on_block_number-IsConfirming n retries seen (some b) = tt

  confirm_round-IsConfirming :
      (n retries last_seen : ℕ)
      → IsConfirming (suc n) (confirm_round log confirmation_blocks r n retries last_seen)
  unfolding confirm_round
  confirm_round-IsConfirming n retries last_seen =
      let seen = load_last_seen (r.stored n) last_seen in
      elim (Bool-cases (leb (confirmed_at log confirmation_blocks) seen)) [
        | inl enough ↦ rw enough (
            on_receipt-IsConfirming n retries seen (r.get_transaction_receipt n)
              (leb→le (confirmed_at log confirmation_blocks) seen enough) refl)
        | inr early ↦
            rw early (on_block_number-IsConfirming (suc n) retries seen (r.get_block_number n))
      ]

  Confirmed-later :
      (n fuel : ℕ) (log' : Log) (last_seen : ℕ)
      → IsConfirming n (left_loop log' last_seen)
      → (log'.removed ≡ some true) ⊎ Confirmed (n + fuel) log' last_seen
  Confirmed-later n fuel log' last_seen (inl gone) = inl gone
  Confirmed-later n fuel log' last_seen (inr (same, enough, (i, before, present))) =
      inr (same, enough, (i, omega arith, present))

  confirm_rounds-IsConfirming :
      (fuel n : ℕ) (place : Confirming) (log' : Log) (last_seen : ℕ)
      → IsConfirming n place
      → confirm_rounds log confirmation_blocks r fuel n place ≡ some (log', last_seen)
      → (log'.removed ≡ some true) ⊎ Confirmed (n + fuel) log' last_seen
  unfolding confirm_rounds
  confirm_rounds-IsConfirming fuel n (left_loop log1 seen1) log' last_seen h e =
      let same = some-pair e in
      let at_end : IsConfirming n (left_loop log' last_seen) = rw same.0 at (rw same.1 at h) in
      Confirmed-later n fuel log' last_seen at_end
  confirm_rounds-IsConfirming zero n (waiting retries seen) log' last_seen h e = cc
  confirm_rounds-IsConfirming (suc fuel) n (waiting retries seen) log' last_seen h e =
      let e' : suc n + fuel ≡ n + suc fuel = omega arith in
      rw e' at (
        confirm_rounds-IsConfirming fuel (suc n) _ log' last_seen
          (confirm_round-IsConfirming n retries seen) e)

or_zero-positive : (o : Option ℕ) → (or_zero o == 0) ≡ false → (h : ℕ) × (o ≡ some h) × (0 < h)
or_zero-positive none positive = cc
or_zero-positive (some h) positive = (h, refl, omega (arith, ==→ne h 0 positive))

-- A log that comes out of the confirmation and is not marked as removed is the log that went in. It
-- has a transaction hash other than zero, `last_seen_block` has reached its block and the
-- confirmations, and one of the rounds found the receipt of its transaction.
pub confirm_event-Confirmed :
    (log log' : Log) (confirmation_blocks last_seen seen : ℕ) (r : ConfirmReadings) (fuel : ℕ)
    → confirm_event log confirmation_blocks last_seen r fuel ≡ some (log', seen)
    → is_removed log' ≡ false
    → (log' ≡ log)
      × ((h : ℕ) × (log.transaction_hash ≡ some h) × (0 < h))
      × (confirmed_at log confirmation_blocks ≤ seen)
      × ((i : ℕ) × (i < fuel) × (r.get_transaction_receipt i ≡ receipt_present))
unfolding confirm_event
confirm_event-Confirmed log log' blocks last_seen seen r fuel e kept =
    elim (Bool-cases (or_zero log.transaction_hash == 0)) [
      | inl nothing ↦
          let marked : log' ≡ mark_removed log = (some-pair (sym (rw nothing at e))).0 in
          let gone : is_removed log' ≡ true = rw marked refl in cc
      | inr hashed ↦
          let looped = rw hashed at e in
          elim (confirm_rounds-IsConfirming log blocks r fuel 0 (waiting 0 last_seen) log' seen tt
            looped) [
              | inl gone ↦ let taken : is_removed log' ≡ true = rw gone refl in cc
              | inr (same, enough, (i, before, present)) ↦ (
                same,
                or_zero-positive log.transaction_hash hashed,
                enough,
                (i, omega arith, present),
              )
            ]
    ]
