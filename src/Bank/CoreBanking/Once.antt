-- ===== src/Bank/CoreBanking/Once.antt =====
-- What is done once: the keys that `PostHeldTransfer` and `ReverseTransfer` of
-- templates/bank/internal/corebanking/service/held_transfer.go leave in the tables.
use jiade.Prelude.{ℕ, false, ◌≡◌, refl, some, arith}
use jiade.Bank.CoreBanking.Tx.{Store, Draws, ◌>>=◌, require, get_biz_date}
use jiade.Bank.CoreBanking.Types.{ok, Booking, PostHeldTransfer, ReverseTransfer}
use jiade.Bank.CoreBanking.Tables.{
  get_txns_by_voucher, get_held_transfer_by_key, reverses, has_reversal_for_voucher,
}
use jiade.Bank.CoreBanking.Held.{
  booking_of, existing_booking, post_unless_known, post_held_transfer, reverse_transfer,
}
use jiade.Bank.CoreBanking.Calls.{Calls, Calls-moves}
use jiade.Bank.CoreBanking.Kept.{Keeps-Respects, post_held_transfer-leaves, reverse_transfer-leaves}

-- A held transfer that has succeeded, under the same key once more and after any further calls,
-- however the new command reads: as long as the business date is set, it succeeds, returns the
-- voucher of the first time with the flows that the tables hold for it, and changes nothing.
pub post_held_transfer-replay :
    (draws draws' : Draws) (req req' : PostHeldTransfer) (s : Store) {b : Booking} {t u : Store}
    (day : ℕ)
    → post_held_transfer draws req s ≡ ok (b, t)
    → Calls t u
    → req'.idempotency_key ≡ req.idempotency_key
    → u.biz_date ≡ some day
    → post_held_transfer draws' req' u ≡ ok (booking_of b.voucher_no day u, u)
unfolding post_held_transfer post_unless_known ◌>>=◌ get_biz_date get_held_transfer_by_key
    existing_booking
post_held_transfer-replay draws draws' req req' s {b} {t} {u} day h calls same set =
    rw
      (
        set,
        same,
        (Calls-moves Keeps-Respects calls).keys req.idempotency_key b.voucher_no
            (post_held_transfer-leaves draws req s h),
      )
      refl

-- The guards of `ReverseTransfer` let a command through only where the voucher has no reversal.
reverse_transfer-unreversed :
    (draws : Draws) (req : ReverseTransfer) (s : Store) {b : Booking} {t : Store}
    → reverse_transfer draws req s ≡ ok (b, t)
    → reverses req.original_voucher_no s.reversals ≡ false
unfolding reverse_transfer ◌>>=◌ require get_biz_date get_txns_by_voucher has_reversal_for_voucher
reverse_transfer-unreversed draws req s h = ground arith

-- A reversal of a held transfer that has succeeded is the last one of its voucher: after any further
-- calls, no other command succeeds in reversing that voucher by `ReverseTransfer`.
pub reverse_transfer-once :
    (draws draws' : Draws) (req req' : ReverseTransfer) (s : Store) {b b' : Booking}
    {t u u' : Store}
    → reverse_transfer draws req s ≡ ok (b, t)
    → Calls t u
    → req'.original_voucher_no ≡ req.original_voucher_no
    → ¬ (reverse_transfer draws' req' u ≡ ok (b', u'))
reverse_transfer-once draws draws' req req' s {b} {b'} {t} {u} {u'} h calls same again =
    let kept =
      (Calls-moves Keeps-Respects calls).vouchers req.original_voucher_no
        (reverse_transfer-leaves draws req s h) in
    let free = reverse_transfer-unreversed draws' req' u again in cc (kept, free, same)
