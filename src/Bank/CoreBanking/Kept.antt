-- ===== src/Bank/CoreBanking/Kept.antt =====
-- The keys that `PostHeldTransfer` and `ReverseTransfer` of
-- templates/bank/internal/corebanking/service/held_transfer.go leave in the tables for good.
use jiade.Prelude.{ℕ, String, true, ◌≡◌, refl, Option, none, some, List, arith, eq_iff, str_eq_self}
use jiade.Bank.CoreBanking.Tx.{
  OutboxMessage, HeldTransfer, VoucherReversal, Store, Draws, ◌>>◌, pure,
}
use jiade.Bank.CoreBanking.Types.{ok, Txn, Booking, Hold, PostHeldTransfer, ReverseTransfer}
use jiade.Bank.CoreBanking.Tables.{
  insert_hold, voucher_of_key, get_held_transfer_by_key, insert_held_transfer, reverses,
  insert_reversal, append_outbox,
}
use jiade.Bank.CoreBanking.Held.{
  settle_transfer, post_new_transfer, existing_booking, post_unless_known, post_held_transfer,
  post_reversal, reverse_transfer,
}
use jiade.Bank.CoreBanking.Moves.{Moves, >>=-eq-ok, Respects, guard-eq-ok}
use jiade.Bank.CoreBanking.Frame.{Framed, post-Framed, reverse_blue-Framed}

-- No reversal and no key of a transfer is ever taken back.
pub record Keeps (s t : Store) : Type 0 where
  pub vouchers : (v : String) → reverses v s.reversals ≡ true → reverses v t.reversals ≡ true
  pub keys :
      (key v : String)
      → voucher_of_key key s.held_transfers ≡ some v
      → voucher_of_key key t.held_transfers ≡ some v

Keeps-of_tables :
    (s t : Store) → t.reversals ≡ s.reversals → t.held_transfers ≡ s.held_transfers → Keeps s t
Keeps-of_tables s t e f = record { vouchers = λ v h. rw e h; keys = λ key v h. rw f h }

Keeps-of_frame : (s t : Store) → Framed s t → Keeps s t
Keeps-of_frame s t f = Keeps-of_tables s t f.same_reversals f.same_transfers

insert_held_transfer-Keeps : (x : HeldTransfer) (s : Store) → Moves Keeps (insert_held_transfer x) s
unfolding insert_held_transfer
insert_held_transfer-Keeps x s = record {
  at = λ a t h. record {
    vouchers = λ v e. ground arith;
    keys = λ key v e. ground (arith, eq_iff x.idempotency_key key);
  };
}

insert_reversal-Keeps : (x : VoucherReversal) (s : Store) → Moves Keeps (insert_reversal x) s
unfolding insert_reversal
insert_reversal-Keeps x s = record {
  at = λ a t h. record { vouchers = λ v e. ground arith; keys = λ key v e. ground arith };
}

insert_hold-Keeps : (x : Hold) (s : Store) → Moves Keeps (insert_hold x) s
unfolding insert_hold
insert_hold-Keeps x s = record { at = λ a t h. Keeps-of_tables s t (ground arith) (ground arith) }

append_outbox-Keeps : (x : OutboxMessage) (s : Store) → Moves Keeps (append_outbox x) s
unfolding append_outbox
append_outbox-Keeps x s = record { at = λ a t h. Keeps-of_tables s t (ground arith) (ground arith) }

pub Keeps-Respects : Respects Keeps
Keeps-Respects = record {
  chains = record {
    stay = λ s. Keeps-of_tables s s refl refl;
    step = λ s t u h k. record {
      vouchers = λ v e. k.vouchers v (h.vouchers v e);
      keys = λ key v e. k.keys key v (h.keys key v e);
    };
  };
  inherited = λ key day subject s. Keeps-of_tables _ _ refl refl;
  posted = λ draws entries day ccy v ref s. record {
    at = λ a t e. Keeps-of_frame s t ((post-Framed draws entries day ccy v ref s).at a t e);
  };
  undone = λ v day s. record {
    at = λ a t e. Keeps-of_frame s t ((reverse_blue-Framed v day _ s).at a t e);
  };
  summary_set = λ v summary s. Keeps-of_tables _ _ refl refl;
  hold_inserted = insert_hold-Keeps;
  hold_changed = λ id status s. Keeps-of_tables _ _ refl refl;
  transfer_kept = insert_held_transfer-Keeps;
  reversal_kept = insert_reversal-Keeps;
  sent = append_outbox-Keeps;
}

-- What a first success leaves.
insert_reversal-leaves :
    (x : VoucherReversal) (s : Store) {t : Store}
    → insert_reversal x s ≡ ok (tt, t)
    → reverses x.reverses_voucher_no t.reversals ≡ true
unfolding insert_reversal
insert_reversal-leaves x s h = ground (arith, str_eq_self x.reverses_voucher_no)

insert_held_transfer-leaves :
    (x : HeldTransfer) (s : Store) {t : Store}
    → insert_held_transfer x s ≡ ok (tt, t)
    → voucher_of_key x.idempotency_key t.held_transfers ≡ some x.voucher_no
unfolding insert_held_transfer
insert_held_transfer-leaves x s h = ground (arith, str_eq_self x.idempotency_key)

post_reversal-leaves :
    (draws : Draws) (req : ReverseTransfer) (day : ℕ) (origs : List Txn) (s : Store) {b : Booking}
    {t : Store}
    → post_reversal draws req day origs s ≡ ok (b, t)
    → reverses req.original_voucher_no t.reversals ≡ true
unfolding post_reversal pure
post_reversal-leaves draws req day origs s {b} {t} h =
    let (txns, s1, e1, h1) = >>=-eq-ok _ _ s h in
    let (_, s2, e2, h2) = >>=-eq-ok _ _ s1 h1 in
    let (_, s3, e3, h3) = >>=-eq-ok _ _ s2 h2 in
    let (_, s4, e4, h4) = >>=-eq-ok _ _ s3 h3 in
    let left = (append_outbox-Keeps _ s3).at tt s4 e4 in
    let last : s4 ≡ t = ground arith in
    rw (← last) (left.vouchers req.original_voucher_no (insert_reversal-leaves _ s2 e3))

settle_transfer-leaves :
    (draws : Draws) (req : PostHeldTransfer) (s : Store) {t : Store}
    → settle_transfer draws req s ≡ ok (tt, t)
    → voucher_of_key req.idempotency_key t.held_transfers ≡ some draws.voucher_no
unfolding settle_transfer
settle_transfer-leaves draws req s {t} h =
    let (_, s1, e1, h1) = >>=-eq-ok _ _ s h in
    let (_, s2, e2, h2) = >>=-eq-ok _ _ s1 h1 in
    ((append_outbox-Keeps _ s2).at tt t h2).keys req.idempotency_key draws.voucher_no
      (insert_held_transfer-leaves _ s1 e2)

last_step-leaves :
    (draws : Draws) (req : PostHeldTransfer) (c : Booking) (s : Store) {b : Booking} {t : Store}
    → c.voucher_no ≡ draws.voucher_no
    → (settle_transfer draws req >> pure c) s ≡ ok (b, t)
    → voucher_of_key req.idempotency_key t.held_transfers ≡ some b.voucher_no
unfolding pure
last_step-leaves draws req c s {b} {t} number h =
    let (_, u, e, h') = >>=-eq-ok _ _ s h in
    let same : u ≡ t = ground arith in
    let result : c ≡ b = ground arith in
    rw (← same, ← result, number) (settle_transfer-leaves draws req s e)

post_new_transfer-leaves :
    (draws : Draws) (req : PostHeldTransfer) (day : ℕ) (s : Store) {b : Booking} {t : Store}
    → post_new_transfer draws req day s ≡ ok (b, t)
    → voucher_of_key req.idempotency_key t.held_transfers ≡ some b.voucher_no
unfolding post_new_transfer
post_new_transfer-leaves draws req day s h =
    let (_, s1, _, h1) = >>=-eq-ok _ _ s h in
    let (from, s2, _, h2) = >>=-eq-ok _ _ s1 h1 in
    let (to, s3, _, h3) = >>=-eq-ok _ _ s2 h2 in
    let (entries, s4, _, h4) = >>=-eq-ok _ _ s3 h3 in
    let (_, s5, _, h5) = >>=-eq-ok _ _ s4 h4 in
    let (txns, s6, _, h6) = >>=-eq-ok _ _ s5 h5 in
    let (_, s7, _, h7) = >>=-eq-ok _ _ s6 h6 in last_step-leaves draws req _ s7 refl h7

existing_booking-leaves :
    (key v : String) (day : ℕ) (s : Store) {b : Booking} {t : Store}
    → voucher_of_key key s.held_transfers ≡ some v
    → existing_booking v day s ≡ ok (b, t)
    → voucher_of_key key t.held_transfers ≡ some b.voucher_no
unfolding existing_booking
existing_booking-leaves key v day s {b} {t} e h =
    let same : s ≡ t = ground arith in
    let number : v ≡ b.voucher_no = ground arith in rw (← same, ← number) e

post_unless_known-leaves :
    (draws : Draws) (req : PostHeldTransfer) (day : ℕ) (s : Store) (known : Option String)
    {b : Booking} {t : Store}
    → voucher_of_key req.idempotency_key s.held_transfers ≡ known
    → post_unless_known draws req day known s ≡ ok (b, t)
    → voucher_of_key req.idempotency_key t.held_transfers ≡ some b.voucher_no
unfolding post_unless_known
post_unless_known-leaves draws req day s none e h = post_new_transfer-leaves draws req day s h
post_unless_known-leaves draws req day s (some v) e h =
    existing_booking-leaves req.idempotency_key v day s e h

get_key-eq :
    (key : String) (s : Store) {found : Option String} {t : Store}
    → get_held_transfer_by_key key s ≡ ok (found, t)
    → (s ≡ t) × (voucher_of_key key s.held_transfers ≡ found)
unfolding get_held_transfer_by_key
get_key-eq key s h = (ground arith, ground arith)

pub post_held_transfer-leaves :
    (draws : Draws) (req : PostHeldTransfer) (s : Store) {b : Booking} {t : Store}
    → post_held_transfer draws req s ≡ ok (b, t)
    → voucher_of_key req.idempotency_key t.held_transfers ≡ some b.voucher_no
unfolding post_held_transfer
post_held_transfer-leaves draws req s h =
    let (day, s1, _, h1) = >>=-eq-ok _ _ s h in
    let (found, s2, e2, h2) = >>=-eq-ok _ _ s1 h1 in
    let (same, e) = get_key-eq req.idempotency_key s1 e2 in
    post_unless_known-leaves draws req day s2 found (rw (← same) e) h2

pub reverse_transfer-leaves :
    (draws : Draws) (req : ReverseTransfer) (s : Store) {b : Booking} {t : Store}
    → reverse_transfer draws req s ≡ ok (b, t)
    → reverses req.original_voucher_no t.reversals ≡ true
unfolding reverse_transfer
reverse_transfer-leaves draws req s h =
    let (day, s1, _, h1) = >>=-eq-ok _ _ s h in
    let (origs, s2, _, h2) = >>=-eq-ok _ _ s1 h1 in
    let (_, h3) = guard-eq-ok _ _ _ s2 h2 in
    let (_, s4, _, h4) = >>=-eq-ok _ _ s2 h3 in
    let (_, h5) = guard-eq-ok _ _ _ s4 h4 in post_reversal-leaves draws req day origs s4 h5
