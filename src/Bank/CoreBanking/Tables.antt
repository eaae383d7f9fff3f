-- ===== src/Bank/CoreBanking/Tables.antt =====
-- The statements on flows, holds, transfers, reversals and the outbox: the rest of
-- templates/bank/internal/corebanking/repo/ledger_repo.go and hold_repo.go.
use jiade.Prelude.{
  ◌+◌, ℕ, ◌+◌, String, Bool, true, false, not, ◌&&◌, ◌||◌, Option, none, some, List, [], ◌∷◌, ◌++◌,
  str_eq, if◌then◌else◌,
}
use jiade.Bank.CoreBanking.Tx.{
  OutboxMessage, HeldTransfer, VoucherReversal, M, ◌>>=◌, pure, fits_numeric, overflow, duplicate,
}
use jiade.Bank.CoreBanking.Types.{
  already_reversed, hold_not_found, ok, err, HoldStatus, TxnStatus, Txn, Hold, is_active, is_normal,
}

abbrev pub has_txn_id : String → List Txn → Bool
has_txn_id id [] = false
has_txn_id id (t ∷ rest) = str_eq t.txn_id id || has_txn_id id rest

-- One round of the loop of `InsertTxns`, with the id that it draws.
unfoldable pub insert_txn : String → Txn → M Txn
unfolding fits_numeric
insert_txn drawn t s =
    let new : Txn = record t { txn_id = if str_eq t.txn_id "" then drawn else t.txn_id } in
    if has_txn_id new.txn_id s.txns
    then err duplicate
    else if not (fits_numeric new.amount)
    then err overflow
    else ok (new, record s { txns = s.txns ++ new ∷ [] })

-- The loop from its round `k`; the flows come back with their ids.
unfoldable pub insert_from : (ℕ → String) → ℕ → List Txn → M (List Txn)
insert_from draw k [] = pure []
insert_from draw k (t ∷ rest) = do
  new ← insert_txn (draw k) t
  others ← insert_from draw (k + 1) rest
  pure (new ∷ others)

abbrev pub insert_txns : (ℕ → String) → List Txn → M (List Txn)
insert_txns draw txns = insert_from draw 0 txns

-- `GetTxnsByVoucher`, and `LockTxnsByVoucher` likewise.
unfoldable pub of_voucher : String → List Txn → List Txn
of_voucher v [] = []
of_voucher v (t ∷ rest) = if str_eq t.voucher_no v then t ∷ of_voucher v rest else of_voucher v rest

unfoldable pub get_txns_by_voucher : String → M (List Txn)
unfolding of_voucher
get_txns_by_voucher v s = ok (of_voucher v s.txns, s)

unfoldable pub refers_to : String → List Txn → Bool
refers_to id [] = false
refers_to id (t ∷ rest) =
    (not (str_eq t.ref_txn_id "") && str_eq t.ref_txn_id id) || refers_to id rest

-- An empty reference is stored as NULL, which is equal to nothing.
unfoldable pub has_reversal : String → M Bool
unfolding refers_to
has_reversal id s = ok (refers_to id s.txns, s)

abbrev pub is_normal_of : String → Txn → Bool
is_normal_of v t = str_eq t.voucher_no v && is_normal t.txn_status

abbrev pub any_normal : String → List Txn → Bool
any_normal v [] = false
any_normal v (t ∷ rest) = is_normal_of v t || any_normal v rest

unfoldable pub mark : String → TxnStatus → List Txn → List Txn
mark v status [] = []
mark v status (t ∷ rest) =
    (if is_normal_of v t then record t { txn_status = status } else t) ∷ mark v status rest

-- Where no row is changed, the error is `sql.ErrNoRows`, for which its caller says already reversed.
unfoldable pub update_txn_status : String → TxnStatus → M (Unit {0})
unfolding mark
update_txn_status v status s =
    if any_normal v s.txns
    then ok (tt, record s { txns = mark v status s.txns })
    else err already_reversed

unfoldable pub summarized : String → String → List Txn → List Txn
summarized v summary [] = []
summarized v summary (t ∷ rest) =
    (if str_eq t.voucher_no v then record t { summary = summary } else t)
    ∷ summarized v summary rest

unfoldable pub set_txn_summary : String → String → M (Unit {0})
unfolding summarized
set_txn_summary v summary s = ok (tt, record s { txns = summarized v summary s.txns })

-- The holds.
unfoldable pub active_holds : String → List Hold → List Hold
active_holds account [] = []
active_holds account (h ∷ rest) =
    if str_eq h.account_no account && is_active h.status
    then h ∷ active_holds account rest
    else active_holds account rest

unfoldable pub lock_active_holds : String → M (List Hold)
unfolding active_holds
lock_active_holds account s = ok (active_holds account s.holds, s)

unfoldable pub hold_of_key : String → List Hold → Option Hold
hold_of_key key [] = none
hold_of_key key (h ∷ rest) = if str_eq h.idempotency_key key then some h else hold_of_key key rest

unfoldable pub get_hold_by_idempotency_key : String → M (Option Hold)
unfolding hold_of_key
get_hold_by_idempotency_key key s = ok (hold_of_key key s.holds, s)

unfoldable pub hold_of_id : String → List Hold → Option Hold
hold_of_id id [] = none
hold_of_id id (h ∷ rest) = if str_eq h.hold_id id then some h else hold_of_id id rest

unfoldable pub lock_hold_by_id : String → M Hold
unfolding hold_of_id
lock_hold_by_id id s = elim (hold_of_id id s.holds) [
  | none ↦ err hold_not_found
  | some h ↦ ok (h, s)
]

abbrev pub is_none : {A : Type 0} → Option A → Bool
is_none none = true
is_none (some _) = false

-- `hold_id` is the table's key and `idempotency_key` is unique.
unfoldable pub insert_hold : Hold → M (Unit {0})
unfolding hold_of_id hold_of_key fits_numeric
insert_hold h s =
    if not (is_none (hold_of_id h.hold_id s.holds))
    then err duplicate
    else if not (is_none (hold_of_key h.idempotency_key s.holds))
    then err duplicate
    else if not (fits_numeric h.amount)
    then err overflow
    else ok (tt, record s { holds = h ∷ s.holds })

unfoldable pub with_status : String → HoldStatus → List Hold → List Hold
with_status id status [] = []
with_status id status (h ∷ rest) =
    let later = with_status id status rest in
    if str_eq h.hold_id id then record h { status = status } ∷ rest else h ∷ later

unfoldable pub set_hold_status : String → HoldStatus → M (Unit {0})
unfolding with_status
set_hold_status id status s = ok (tt, record s { holds = with_status id status s.holds })

-- The transfers, the reversals and the outbox.
unfoldable pub voucher_of_key : String → List HeldTransfer → Option String
voucher_of_key key [] = none
voucher_of_key key (t ∷ rest) =
    if str_eq t.idempotency_key key then some t.voucher_no else voucher_of_key key rest

unfoldable pub get_held_transfer_by_key : String → M (Option String)
unfolding voucher_of_key
get_held_transfer_by_key key s = ok (voucher_of_key key s.held_transfers, s)

unfoldable pub insert_held_transfer : HeldTransfer → M (Unit {0})
unfolding voucher_of_key
insert_held_transfer t s =
    if is_none (voucher_of_key t.idempotency_key s.held_transfers)
    then ok (tt, record s { held_transfers = t ∷ s.held_transfers })
    else err duplicate

unfoldable pub reverses : String → List VoucherReversal → Bool
reverses v [] = false
reverses v (r ∷ rest) = str_eq r.reverses_voucher_no v || reverses v rest

unfoldable pub has_reversal_for_voucher : String → M Bool
unfolding reverses
has_reversal_for_voucher v s = ok (reverses v s.reversals, s)

unfoldable pub insert_reversal : VoucherReversal → M (Unit {0})
unfolding reverses
insert_reversal r s =
    if reverses r.reverses_voucher_no s.reversals
    then err duplicate
    else ok (tt, record s { reversals = r ∷ s.reversals })

abbrev pub has_message : String → List OutboxMessage → Bool
has_message id [] = false
has_message id (m ∷ rest) = str_eq m.message_id id || has_message id rest

unfoldable pub append_outbox : OutboxMessage → M (Unit {0})
append_outbox m s =
    if has_message m.message_id s.outbox
    then err duplicate
    else ok (tt, record s { outbox = s.outbox ++ m ∷ [] })
