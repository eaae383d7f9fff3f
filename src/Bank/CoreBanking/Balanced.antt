-- ===== src/Bank/CoreBanking/Balanced.antt =====
-- The trial balance of the general ledger, over any sequence of the calls of
-- templates/bank/internal/corebanking/service.
use jiade.Prelude.{String, true, false, ◌≡◌, refl, arith}
use jiade.Bank.CoreBanking.Tx.{OutboxMessage, HeldTransfer, VoucherReversal, Store}
use jiade.Bank.CoreBanking.Types.{Hold}
use jiade.Bank.CoreBanking.Tables.{
  summarized, insert_hold, insert_held_transfer, insert_reversal, append_outbox,
}
use jiade.Bank.CoreBanking.Moves.{Moves, Respects}
use jiade.Bank.CoreBanking.Calls.{Calls, Calls-moves}
use jiade.Bank.CoreBanking.Shares.{summarized-shares}
use jiade.Bank.CoreBanking.Trial.{IsBalanced, SameBooks-IsBalanced}
use jiade.Bank.CoreBanking.Posted.{post-IsBalanced, reverse_blue-IsBalanced}

KeepsBalance : Store → Store → Type 0
KeepsBalance s t = IsBalanced s → IsBalanced t

keeps_by_books : (s t : Store) → t.txns ≡ s.txns → t.gl ≡ s.gl → KeepsBalance s t
unfolding KeepsBalance
keeps_by_books s t e f = SameBooks-IsBalanced s t (record { same_txns = e; same_gl = f })

insert_hold-Balance : (h : Hold) (s : Store) → Moves KeepsBalance (insert_hold h) s
unfolding insert_hold
insert_hold-Balance x s = record { at = λ a t h. keeps_by_books s t (ground arith) (ground arith) }

insert_held_transfer-Balance :
    (x : HeldTransfer) (s : Store) → Moves KeepsBalance (insert_held_transfer x) s
unfolding insert_held_transfer
insert_held_transfer-Balance x s = record {
  at = λ a t h. keeps_by_books s t (ground arith) (ground arith);
}

insert_reversal-Balance :
    (x : VoucherReversal) (s : Store) → Moves KeepsBalance (insert_reversal x) s
unfolding insert_reversal
insert_reversal-Balance x s = record {
  at = λ a t h. keeps_by_books s t (ground arith) (ground arith);
}

append_outbox-Balance : (x : OutboxMessage) (s : Store) → Moves KeepsBalance (append_outbox x) s
unfolding append_outbox
append_outbox-Balance x s = record {
  at = λ a t h. keeps_by_books s t (ground arith) (ground arith);
}

summary-Balance :
    (v summary : String) (s : Store)
    → KeepsBalance s (record s { txns = summarized v summary s.txns })
unfolding KeepsBalance
summary-Balance v summary s b = record {
  books = b.books;
  vouchers = λ w.
      rw (summarized-shares false w v summary s.txns, summarized-shares true w v summary s.txns)
        (b.vouchers w);
}

KeepsBalance-Respects : Respects KeepsBalance
unfolding KeepsBalance
KeepsBalance-Respects = record {
  chains = record { stay = λ s b. b; step = λ s t u f g b. g (f b) };
  inherited = λ key day subject s. keeps_by_books _ _ refl refl;
  posted = λ draws entries day ccy v ref s. record {
    at = λ a t e. post-IsBalanced draws entries day ccy v ref s e;
  };
  undone = λ v day s. record { at = λ a t e. reverse_blue-IsBalanced v day s e };
  summary_set = summary-Balance;
  hold_inserted = insert_hold-Balance;
  hold_changed = λ id status s. keeps_by_books _ _ refl refl;
  transfer_kept = insert_held_transfer-Balance;
  reversal_kept = insert_reversal-Balance;
  sent = append_outbox-Balance;
}

-- Through any sequence of successful calls of the six services, the debits of the general ledger
-- stay equal to its credits, and the flows of every voucher carry equal debits and credits, as
-- 64-bit words.
pub Calls-IsBalanced : {s t : Store} → Calls s t → IsBalanced s → IsBalanced t
unfolding KeepsBalance
Calls-IsBalanced calls = Calls-moves KeepsBalance-Respects calls
