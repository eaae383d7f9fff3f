-- ===== src/Bank/CoreBanking/Served.antt =====
-- Each service of templates/bank/internal/corebanking/service respects a relation that its statements
-- respect, and so does any sequence of calls.
use jiade.Prelude.{
  ℕ, String, Bool, true, false, Option, none, some, List, [], ◌∷◌, Bool-cases, inl, inr,
}
use jiade.Bank.CoreBanking.Tx.{Store, Draws, M, ◌>>=◌, ◌>>◌, raise, require}
use jiade.Bank.CoreBanking.Types.{
  Error, ReverseMode, blue, red, DemandAccount, Txn, Balance, Hold, PlaceHoldInput, RecordInput,
  is_transfer,
}
use jiade.Bank.CoreBanking.Tables.{of_voucher, get_txns_by_voucher}
use jiade.Bank.CoreBanking.Services.{
  new_hold, reserve_funds, place_locked, place_hold, release_hold, lock_rows, resolve_payer,
  open_counterparty, resolve_counterparty, record_txn, reverse_red, reverse_by, reverse_txn,
}
use jiade.Bank.CoreBanking.Moves.{
  Moves, Respects, Moves-bind, Moves-pure, Moves-lift, Moves-get_biz_date,
}
use jiade.Bank.CoreBanking.Respected.{
  Moves-get_demand, Moves-get_hold, Moves-lock_hold, Moves-lock_active, Moves-has_reversal,
  Moves-ensure, Moves-lock_latest, Moves-summary, Moves-hold_status, Moves-when,
}

module _ {R : Store → Store → Type 0} (r : Respects R) where
  -- `a guard, then the rest`
  pub Moves-guard :
      {B : Type 0} (test : Bool) (x : Error) (m : M B) (s : Store)
      → Moves R m s
      → Moves R (require test x >> m) s
  unfolding ◌>>=◌ require
  Moves-guard true x m s h = h
  Moves-guard false x m s h = record { at = λ b t e. cc }

  Moves-reserve :
      (draws : Draws) (req : PlaceHoldInput) (bal : Balance) (now : List Hold) (s : Store)
      → Moves R (reserve_funds draws req bal now) s
  unfolding reserve_funds
  Moves-reserve draws req bal now s = Moves-guard _ _ _ s (
      Moves-bind r.chains _ _ s (r.hold_inserted (new_hold draws req) s)
        λ a t e. Moves-pure r.chains _ t)

  pub Moves-found :
      {A B : Type 0} (found : Option A) (f : A → M B) (m : M B) (s : Store)
      → ((a : A) → Moves R (f a) s)
      → Moves R m s
      → Moves R (elim found [ some a ↦ f a | none ↦ m ]) s
  Moves-found none f m s g h = h
  Moves-found (some a) f m s g h = g a

  Moves-place_locked :
      (draws : Draws) (req : PlaceHoldInput) (s : Store) → Moves R (place_locked draws req) s
  unfolding place_locked
  Moves-place_locked draws req s = Moves-bind r.chains _ _ s (Moves-lock_latest r _ s) λ bal t _.
      Moves-bind r.chains _ _ t (Moves-lock_active r _ t) λ now u _.
        Moves-bind r.chains _ _ u (Moves-get_hold r _ u) λ again v _.
          Moves-found again _ _ v (λ h. Moves-pure r.chains h v) (Moves-reserve draws req bal now v)

  pub Moves-place_hold :
      (draws : Draws) (req : PlaceHoldInput) (s : Store) → Moves R (place_hold draws req) s
  unfolding place_hold
  Moves-place_hold draws req s = Moves-guard _ _ _ s (
      Moves-bind r.chains _ _ s (Moves-get_hold r _ s) λ found t _.
        Moves-found found _ _ t (λ h. Moves-pure r.chains h t) (Moves-place_locked draws req t))

  pub Moves-release_hold : (id : String) (s : Store) → Moves R (release_hold id) s
  unfolding release_hold
  Moves-release_hold id s = Moves-bind r.chains _ _ s (Moves-lock_hold r id s) λ h t _.
      Moves-bind r.chains _ _ t (Moves-lift r.chains _ t) λ status u _.
        Moves-bind r.chains _ _ u (Moves-when r _ _ u (Moves-hold_status r id status u))
          λ _ v _. Moves-pure r.chains _ v

  Moves-payer : (req : RecordInput) (s : Store) → Moves R (resolve_payer req) s
  unfolding resolve_payer
  Moves-payer req s =
      Moves-bind r.chains _ _ s (Moves-get_demand r _ s)
        λ acct t _. Moves-guard _ _ _ t (Moves-guard _ _ _ t (Moves-pure r.chains _ t))

  Moves-open : (key : String) (s : Store) → Moves R (open_counterparty key) s
  unfolding open_counterparty
  Moves-open key s =
      Moves-bind r.chains _ _ s (Moves-get_demand r _ s)
        λ opp t _. Moves-guard _ _ _ t (Moves-pure r.chains _ t)

  Moves-counterparty : (req : RecordInput) (s : Store) → Moves R (resolve_counterparty req) s
  unfolding resolve_counterparty
  Moves-counterparty req s = elim (Bool-cases (is_transfer req.action)) [
    | inl e ↦ rw e (Moves-open req.to_account s)
    | inr e ↦ rw e (Moves-pure r.chains none s)
  ]

  Moves-lock_rows :
      (req : RecordInput) (acct : DemandAccount) (counterparty : Option DemandAccount) (day : ℕ)
      (keys : List String) (s : Store)
      → Moves R (lock_rows req acct counterparty day keys) s
  unfolding lock_rows
  Moves-lock_rows req acct counterparty day [] s = Moves-pure r.chains tt s
  Moves-lock_rows req acct counterparty day (key ∷ rest) s =
      Moves-bind r.chains _ _ s (Moves-ensure r key day _ s)
        λ bal t _. Moves-guard _ _ _ t (Moves-lock_rows req acct counterparty day rest t)

  pub Moves-record_txn :
      (draws : Draws) (req : RecordInput) (s : Store) → Moves R (record_txn draws req) s
  unfolding record_txn
  Moves-record_txn draws req s =
      Moves-bind r.chains _ _ s (Moves-get_biz_date r.chains s) λ day t _.
        Moves-bind r.chains _ _ t (Moves-payer req t) λ acct t _.
          Moves-bind r.chains _ _ t (Moves-counterparty req t) λ opp t _.
            Moves-bind r.chains _ _ t (Moves-lift r.chains _ t) λ entries t _.
              Moves-bind r.chains _ _ t (Moves-lock_rows req acct opp day _ t) λ _ t _.
                Moves-bind r.chains _ _ t (r.posted draws entries day _ _ _ t) λ txns t _.
                  Moves-bind r.chains _ _ t (Moves-summary r _ _ t) λ _ t _. Moves-pure r.chains _ t

  Moves-red :
      (draws : Draws) (v : String) (day : ℕ) (origs : List Txn) (s : Store)
      → Moves R (reverse_red draws v day origs) s
  unfolding reverse_red
  Moves-red draws v day origs s = Moves-bind r.chains _ _ s (Moves-has_reversal r _ s) λ has t _.
      Moves-guard _ _ _ t (
        Moves-bind r.chains _ _ t (r.posted draws _ day _ _ _ t)
          λ txns u _. Moves-pure r.chains _ u)

  Moves-by :
      (draws : Draws) (mode : ReverseMode) (v : String) (day : ℕ) (s : Store)
      → Moves R (reverse_by draws mode v day (of_voucher v s.txns)) s
  unfolding reverse_by raise
  Moves-by draws blue v day s = r.undone v day s
  Moves-by draws red v day s = Moves-red draws v day _ s
  Moves-by draws (ReverseMode.other _) v day s = record { at = λ a t e. cc }

  -- The flows of the voucher are those that the table holds.
  Moves-origs :
      {B : Type 0} (v : String) (f : List Txn → M B) (s : Store)
      → Moves R (f (of_voucher v s.txns)) s
      → Moves R (get_txns_by_voucher v >>= f) s
  unfolding ◌>>=◌ get_txns_by_voucher
  Moves-origs v f s h = record { at = λ b u e. h.at b u e }

  pub Moves-reverse_txn :
      (draws : Draws) (v : String) (mode : ReverseMode) (s : Store)
      → Moves R (reverse_txn draws v mode) s
  unfolding reverse_txn
  Moves-reverse_txn draws v mode s =
      Moves-bind r.chains _ _ s (Moves-get_biz_date r.chains s) λ day t _.
        Moves-origs v _ t (Moves-guard _ _ _ t (Moves-guard _ _ _ t (Moves-by draws mode v day t)))
