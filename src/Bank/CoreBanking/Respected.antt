-- ===== src/Bank/CoreBanking/Respected.antt =====
-- The reads and the single writes of templates/bank/internal/corebanking/repo, under a relation that
-- the statements respect.
use jiade.Prelude.{ℕ, String, Bool, true, false, ◌≡◌, arith}
use jiade.Bank.CoreBanking.Tx.{Store, M, when}
use jiade.Bank.CoreBanking.Types.{Error, HoldStatus, Balance}
use jiade.Bank.CoreBanking.Store.{
  get_demand, inherit, lock_row, ensure_balance_row, lock_latest_balance,
}
use jiade.Bank.CoreBanking.Tables.{
  get_txns_by_voucher, has_reversal, set_txn_summary, lock_active_holds,
  get_hold_by_idempotency_key, lock_hold_by_id, set_hold_status, get_held_transfer_by_key,
  has_reversal_for_voucher,
}
use jiade.Bank.CoreBanking.Services.{summary_step}
use jiade.Bank.CoreBanking.Held.{existing_booking}
use jiade.Bank.CoreBanking.Moves.{Moves, Respects, Moves-bind, Moves-same, Moves-get_biz_date}

module _ {R : Store → Store → Type 0} (r : Respects R) where
  -- The reads.
  pub Moves-get_demand : (key : String) (s : Store) → Moves R (get_demand key) s
  unfolding get_demand
  Moves-get_demand key s = Moves-same r.chains (get_demand key) s (λ b t e. ground arith)

  pub Moves-get_hold : (key : String) (s : Store) → Moves R (get_hold_by_idempotency_key key) s
  unfolding get_hold_by_idempotency_key
  Moves-get_hold key s =
      Moves-same r.chains (get_hold_by_idempotency_key key) s (λ b t e. ground arith)

  pub Moves-lock_hold : (id : String) (s : Store) → Moves R (lock_hold_by_id id) s
  unfolding lock_hold_by_id
  Moves-lock_hold id s = Moves-same r.chains (lock_hold_by_id id) s (λ b t e. ground arith)

  pub Moves-lock_active : (key : String) (s : Store) → Moves R (lock_active_holds key) s
  unfolding lock_active_holds
  Moves-lock_active key s = Moves-same r.chains (lock_active_holds key) s (λ b t e. ground arith)

  pub Moves-get_key : (key : String) (s : Store) → Moves R (get_held_transfer_by_key key) s
  unfolding get_held_transfer_by_key
  Moves-get_key key s = Moves-same r.chains (get_held_transfer_by_key key) s (λ b t e. ground arith)

  pub Moves-get_txns : (v : String) (s : Store) → Moves R (get_txns_by_voucher v) s
  unfolding get_txns_by_voucher
  Moves-get_txns v s = Moves-same r.chains (get_txns_by_voucher v) s (λ b t e. ground arith)

  pub Moves-has_reversal_for : (v : String) (s : Store) → Moves R (has_reversal_for_voucher v) s
  unfolding has_reversal_for_voucher
  Moves-has_reversal_for v s =
      Moves-same r.chains (has_reversal_for_voucher v) s (λ b t e. ground arith)

  pub Moves-has_reversal : (id : String) (s : Store) → Moves R (has_reversal id) s
  unfolding has_reversal
  Moves-has_reversal id s = Moves-same r.chains (has_reversal id) s (λ b t e. ground arith)

  pub Moves-existing : (v : String) (day : ℕ) (s : Store) → Moves R (existing_booking v day) s
  unfolding existing_booking
  Moves-existing v day s = Moves-same r.chains (existing_booking v day) s (λ b t e. ground arith)

  -- The writes that are not transactions of their own.
  pub Moves-lock_row :
      (key : String) (day : ℕ) (subject : Balance → String) (x : Error) (s : Store)
      → Moves R (lock_row key day subject x) s
  unfolding lock_row
  Moves-lock_row key day subject x s = record {
    at = λ b t e.
        let same : t ≡ record s { balances = inherit key day subject s.balances } = ground arith in
        rw same (r.inherited key day subject s);
  }

  pub Moves-ensure :
      (key : String) (day : ℕ) (subject : String) (s : Store)
      → Moves R (ensure_balance_row key day subject) s
  unfolding ensure_balance_row
  Moves-ensure key day subject s = Moves-lock_row key day _ _ s

  pub Moves-lock_latest : (key : String) (s : Store) → Moves R (lock_latest_balance key) s
  unfolding lock_latest_balance
  Moves-lock_latest key s =
      Moves-bind r.chains _ _ s (Moves-get_biz_date r.chains s)
        λ day t e. Moves-lock_row key day _ _ t

  pub Moves-summary : (v summary : String) (s : Store) → Moves R (summary_step v summary) s
  unfolding summary_step when set_txn_summary
  Moves-summary v summary s = record {
    at = λ a t e. ground (arith, r.stay s, r.summary_set v summary s);
  }

  pub Moves-hold_status :
      (id : String) (status : HoldStatus) (s : Store) → Moves R (set_hold_status id status) s
  unfolding set_hold_status
  Moves-hold_status id status s = record {
    at = λ a t e. ground (arith, r.hold_changed id status s);
  }

  pub Moves-when :
      (test : Bool) (m : M (Unit {0})) (s : Store) → Moves R m s → Moves R (when test m) s
  unfolding when
  Moves-when true m s h = h
  Moves-when false m s h = Moves-same r.chains (when false m) s (λ a t e. cc)
