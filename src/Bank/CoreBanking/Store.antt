-- ===== src/Bank/CoreBanking/Store.antt =====
-- The statements on accounts, balances and the general ledger: ledger_repo.go, hold_repo.go and
-- account_repo.go of templates/bank/internal/corebanking/repo. A statement fails where a number does
-- not fit its NUMERIC(18,2) column.
use jiade.Prelude.{
  ℕ, String, Bool, true, ◌&&◌, ◌==◌, Option, none, some, List, [], ◌∷◌, ltb, str_eq, if◌then◌else◌,
}
use jiade.Prelude.Int.{pos, ◌+ℤ◌}
use jiade.Bank.CoreBanking.Types.{
  Error, account_not_found, hold_not_found, rejected, ok, err, DemandAccount, Balance, BalanceDelta,
  GlBalance,
}
use jiade.Bank.CoreBanking.Tx.{M, ◌>>=◌, ◌>>◌, pure, fits_numeric, overflow, get_biz_date}

unfoldable pub find_account : String → List DemandAccount → Option DemandAccount
find_account key [] = none
find_account key (a ∷ rest) = if str_eq a.account_no key then some a else find_account key rest

-- `GetDemand`, whose error the services replace.
unfoldable pub get_demand : String → M DemandAccount
unfolding find_account
get_demand key s = elim (find_account key s.accounts) [
  | none ↦ err account_not_found
  | some a ↦ ok (a, s)
]

-- The row of an account on a day.
abbrev pub is_row : String → ℕ → Balance → Bool
is_row key day b = str_eq b.account_no key && (b.biz_date == day)

unfoldable pub find_row : String → ℕ → List Balance → Option Balance
find_row key day [] = none
find_row key day (b ∷ rest) = if is_row key day b then some b else find_row key day rest

abbrev later_of : Balance → Option Balance → Balance
later_of b none = b
later_of b (some c) = if ltb b.biz_date c.biz_date then c else b

-- The row of an account with the greatest date.
unfoldable pub latest : String → List Balance → Option Balance
latest key [] = none
latest key (b ∷ rest) =
    let found = latest key rest in
    if str_eq b.account_no key then some (later_of b found) else found

-- The row that a day inherits, inserted where the day has none.
unfoldable pub inherit : String → ℕ → (Balance → String) → List Balance → List Balance
unfolding find_row latest
inherit key day subject rows = elim (find_row key day rows) [
  | some _ ↦ rows
  | none ↦ elim (latest key rows) [
    | none ↦ rows
    | some b ↦ record b { biz_date = day; subject_code = subject b } ∷ rows
  ]
]

-- The two statements that `EnsureBalanceRow` and `LockLatestBalance` share.
unfoldable pub lock_row : String → ℕ → (Balance → String) → Error → M Balance
unfolding find_row inherit
lock_row key day subject missing s =
    let rows = inherit key day subject s.balances in
    elim (find_row key day rows) [
      | none ↦ err missing
      | some b ↦ ok (b, record s { balances = rows })
    ]

unfoldable pub ensure_balance_row : String → ℕ → String → M Balance
unfolding lock_row
ensure_balance_row key day subject =
    lock_row key day (λ b. if str_eq subject "" then b.subject_code else subject)
      (rejected "no balance row")

unfoldable pub lock_latest_balance : String → M Balance
unfolding lock_row ◌>>=◌ get_biz_date
lock_latest_balance key = do
  day ← get_biz_date
  lock_row key day (λ b. b.subject_code) hold_not_found

-- One round of the loop of `ApplyBalanceDeltas`.
unfoldable pub accumulate : ℕ → BalanceDelta → List Balance → List Balance
accumulate day d [] =
    record {
      account_no = d.account_no;
      biz_date = day;
      balance = d.delta;
      available_balance = d.delta;
      frozen_amount = pos 0;
      subject_code = d.subject_code;
    }
    ∷ []
accumulate day d (b ∷ rest) =
    let later = accumulate day d rest in
    if is_row d.account_no day b
    then record b {
      balance = b.balance +ℤ d.delta;
      available_balance = b.available_balance +ℤ d.delta;
    }
      ∷ rest
    else b ∷ later

abbrev pub row_fits : Option Balance → Bool
row_fits none = true
row_fits (some b) = fits_numeric b.balance && fits_numeric b.available_balance

unfoldable pub apply_delta : ℕ → BalanceDelta → M (Unit {0})
unfolding accumulate find_row fits_numeric
apply_delta day d s =
    let rows = accumulate day d s.balances in
    if row_fits (find_row d.account_no day rows)
    then ok (tt, record s { balances = rows })
    else err overflow

unfoldable pub apply_balance_deltas : ℕ → List BalanceDelta → M (Unit {0})
apply_balance_deltas day [] = pure tt
apply_balance_deltas day (d ∷ rest) = do apply_delta day d; apply_balance_deltas day rest

abbrev pub is_gl_row : GlBalance → GlBalance → Bool
is_gl_row g h =
    str_eq h.subject_code g.subject_code && ((h.biz_date == g.biz_date) && str_eq h.ccy g.ccy)

unfoldable pub add_gl : GlBalance → List GlBalance → List GlBalance
add_gl g [] = g ∷ []
add_gl g (h ∷ rest) =
    let later = add_gl g rest in
    if is_gl_row g h
    then record h {
      dc_balance = h.dc_balance +ℤ g.dc_balance;
      cc_balance = h.cc_balance +ℤ g.cc_balance;
    }
      ∷ rest
    else h ∷ later

abbrev pub gl_fits : List GlBalance → Bool
gl_fits [] = true
gl_fits (g ∷ rest) = fits_numeric g.dc_balance && (fits_numeric g.cc_balance && gl_fits rest)

unfoldable pub upsert_gl : GlBalance → M (Unit {0})
unfolding add_gl fits_numeric
upsert_gl g s =
    let rows = add_gl g s.gl in
    if gl_fits rows then ok (tt, record s { gl = rows }) else err overflow
