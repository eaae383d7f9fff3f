-- ===== src/Bank/CoreBanking/Moves.antt =====
-- What a transaction of templates/bank/internal/corebanking/service does to the tables, found from
-- what its statements do: a relation between the state before and the state after a success.
use jiade.Prelude.{ℕ, String, Bool, true, false, ◌≡◌, refl, List, arith}
use jiade.Bank.CoreBanking.Tx.{
  OutboxMessage, HeldTransfer, VoucherReversal, Store, Draws, M, continue, ◌>>=◌, ◌>>◌, pure, lift,
  require, get_biz_date,
}
use jiade.Bank.CoreBanking.Types.{Error, Result, ok, err, HoldStatus, Entry, Balance, Hold}
use jiade.Bank.CoreBanking.Store.{inherit}
use jiade.Bank.CoreBanking.Tables.{
  of_voucher, summarized, insert_hold, with_status, insert_held_transfer, insert_reversal,
  append_outbox,
}
use jiade.Bank.CoreBanking.Services.{post, reverse_blue}

-- A step that succeeds in `s` leads to a state that is related to `s`.
pub record Moves {A : Type 0} (R : Store → Store → Type 0) (m : M A) (s : Store) : Type 0 where
  pub at : (a : A) (s' : Store) → m s ≡ ok (a, s') → R s s'

module _ {A B : Type 0} where
  pub >>=-eq-ok :
      (m : M A) (f : A → M B) (s : Store) {b : B} {s' : Store}
      → (m >>= f) s ≡ ok (b, s')
      → (a : A) × (t : Store) × (m s ≡ ok (a, t)) × (f a t ≡ ok (b, s'))
  unfolding ◌>>=◌
  >>=-eq-ok m f s {b} {s'} h = found (m s) refl h
    where
      found :
          (r : Result (A × Store))
          → m s ≡ r
          → continue f r ≡ ok (b, s')
          → (a : A) × (t : Store) × (m s ≡ ok (a, t)) × (f a t ≡ ok (b, s'))
      found (ok (a, t)) e h = (a, t, e, h)
      found (err x) e h = cc

pub record Chains (R : Store → Store → Type 0) : Type 0 where
  pub stay : (s : Store) → R s s
  pub step : (s t u : Store) → R s t → R t u → R s u

-- What a relation has to say of the statements for all the services to respect it.
pub record Respects (R : Store → Store → Type 0) : Type 1 where
  pub chains : Chains R
  pub open chains use *
  pub inherited :
      (key : String) (day : ℕ) (subject : Balance → String) (s : Store)
      → R s (record s { balances = inherit key day subject s.balances })
  pub posted :
      (draws : Draws) (entries : List Entry) (day : ℕ) (ccy voucher ref : String) (s : Store)
      → Moves R (post draws entries day ccy voucher ref) s
  pub undone :
      (voucher : String) (day : ℕ) (s : Store)
      → Moves R (reverse_blue voucher day (of_voucher voucher s.txns)) s
  pub summary_set :
      (voucher summary : String) (s : Store)
      → R s (record s { txns = summarized voucher summary s.txns })
  pub hold_inserted : (h : Hold) (s : Store) → Moves R (insert_hold h) s
  pub hold_changed :
      (id : String) (status : HoldStatus) (s : Store)
      → R s (record s { holds = with_status id status s.holds })
  pub transfer_kept : (t : HeldTransfer) (s : Store) → Moves R (insert_held_transfer t) s
  pub reversal_kept : (r : VoucherReversal) (s : Store) → Moves R (insert_reversal r) s
  pub sent : (m : OutboxMessage) (s : Store) → Moves R (append_outbox m) s

module _ {R : Store → Store → Type 0} (r : Chains R) where
  pub Moves-bind :
      {A B : Type 0} (m : M A) (f : A → M B) (s : Store)
      → Moves R m s
      → ((a : A) (t : Store) → m s ≡ ok (a, t) → Moves R (f a) t)
      → Moves R (m >>= f) s
  Moves-bind m f s first later = record {
    at = λ b u h.
        let (a, t, e, g) = >>=-eq-ok m f s h in
        r.step s t u (first.at a t e) ((later a t e).at b u g);
  }

  -- A step that writes nothing.
  module _ {A : Type 0} where
    pub Moves-same :
        (m : M A) (s : Store) → ((a : A) (t : Store) → m s ≡ ok (a, t) → s ≡ t) → Moves R m s
    Moves-same m s h = record { at = λ a t e. rw (← h a t e) (r.stay s) }

    pub Moves-pure : (a : A) (s : Store) → Moves R (pure a) s
    unfolding pure
    Moves-pure a s = Moves-same (pure a) s (λ b t e. cc)

    pub Moves-lift : (x : Result A) (s : Store) → Moves R (lift x) s
    unfolding lift
    Moves-lift (ok a) s = Moves-same (lift (ok a)) s (λ b t e. cc)
    Moves-lift (err x) s = Moves-same (lift (err x)) s (λ b t e. cc)

  pub Moves-require : (test : Bool) (x : Error) (s : Store) → Moves R (require test x) s
  unfolding require
  Moves-require true x s = Moves-same (require true x) s (λ b t e. cc)
  Moves-require false x s = Moves-same (require false x) s (λ b t e. cc)

  pub Moves-get_biz_date : (s : Store) → Moves R get_biz_date s
  unfolding get_biz_date
  Moves-get_biz_date s = Moves-same get_biz_date s (λ b t e. ground arith)

-- What a step that succeeds has passed.
pub guard-eq-ok :
    {B : Type 0} (test : Bool) (x : Error) (m : M B) (s : Store) {b : B} {t : Store}
    → (require test x >> m) s ≡ ok (b, t)
    → (test ≡ true) × (m s ≡ ok (b, t))
unfolding ◌>>=◌ require
guard-eq-ok true x m s h = (refl, h)
guard-eq-ok false x m s h = cc

pub lift-eq-ok :
    {A : Type 0} (r : Result A) (s : Store) {a : A} {t : Store}
    → lift r s ≡ ok (a, t)
    → (r ≡ ok a) × (s ≡ t)
unfolding lift
lift-eq-ok (ok x) s h = (cc, cc)
lift-eq-ok (err e) s h = cc

pub pure-eq-ok :
    {A : Type 0} (x : A) (s : Store) {a : A} {t : Store} → pure x s ≡ ok (a, t) → (x ≡ a) × (s ≡ t)
unfolding pure
pure-eq-ok x s h = (cc, cc)
