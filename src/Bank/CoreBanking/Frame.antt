-- ===== src/Bank/CoreBanking/Frame.antt =====
-- What a posting leaves alone: `Post` and the blue reversal of
-- templates/bank/internal/corebanking/service write flows, balances and the general ledger only.
use jiade.Prelude.{ℕ, ◌+◌, String, ◌≡◌, refl, ◌∙◌, List, [], ◌∷◌, arith}
use jiade.Bank.CoreBanking.Tx.{Store, Draws}
use jiade.Bank.CoreBanking.Types.{TxnStatus, Entry, Txn, BalanceDelta, GlBalance}
use jiade.Bank.CoreBanking.Store.{apply_delta, apply_balance_deltas, upsert_gl}
use jiade.Bank.CoreBanking.Tables.{insert_txn, insert_from, has_reversal, update_txn_status}
use jiade.Bank.CoreBanking.Moves.{Moves, Chains, Moves-bind, Moves-pure, Moves-lift, Moves-require}
use jiade.Bank.CoreBanking.Services.{post, reverse_blue}

pub record Framed (s t : Store) : Type 0 where
  pub same_date : t.biz_date ≡ s.biz_date
  pub same_accounts : t.accounts ≡ s.accounts
  pub same_holds : t.holds ≡ s.holds
  pub same_transfers : t.held_transfers ≡ s.held_transfers
  pub same_reversals : t.reversals ≡ s.reversals
  pub same_outbox : t.outbox ≡ s.outbox

pub Framed-refl : (s : Store) → Framed s s
Framed-refl s = record {
  same_date = refl;
  same_accounts = refl;
  same_holds = refl;
  same_transfers = refl;
  same_reversals = refl;
  same_outbox = refl;
}

pub Framed-trans : (s t u : Store) → Framed s t → Framed t u → Framed s u
Framed-trans s t u f g = record {
  same_date = g.same_date ∙ f.same_date;
  same_accounts = g.same_accounts ∙ f.same_accounts;
  same_holds = g.same_holds ∙ f.same_holds;
  same_transfers = g.same_transfers ∙ f.same_transfers;
  same_reversals = g.same_reversals ∙ f.same_reversals;
  same_outbox = g.same_outbox ∙ f.same_outbox;
}

pub Framed-Chains : Chains Framed
Framed-Chains = record { stay = Framed-refl; step = Framed-trans }

insert_txn-Framed : (drawn : String) (x : Txn) (s : Store) → Moves Framed (insert_txn drawn x) s
unfolding insert_txn
insert_txn-Framed drawn x s = record { at = λ a t h. ground arith }

insert_from-Framed :
    (draw : ℕ → String) (k : ℕ) (txns : List Txn) (s : Store)
    → Moves Framed (insert_from draw k txns) s
unfolding insert_from
insert_from-Framed draw k [] s = Moves-pure Framed-Chains [] s
insert_from-Framed draw k (x ∷ rest) s =
    Moves-bind Framed-Chains _ _ s (insert_txn-Framed _ x s) λ new t _.
      Moves-bind Framed-Chains _ _ t (insert_from-Framed draw (k + 1) rest t)
        λ others u _. Moves-pure Framed-Chains _ u

apply_delta-Framed : (day : ℕ) (d : BalanceDelta) (s : Store) → Moves Framed (apply_delta day d) s
unfolding apply_delta
apply_delta-Framed day d s = record { at = λ a t h. ground arith }

apply-Framed :
    (day : ℕ) (deltas : List BalanceDelta) (s : Store)
    → Moves Framed (apply_balance_deltas day deltas) s
unfolding apply_balance_deltas
apply-Framed day [] s = Moves-pure Framed-Chains tt s
apply-Framed day (d ∷ rest) s =
    Moves-bind Framed-Chains _ _ s (apply_delta-Framed day d s) λ _ t _. apply-Framed day rest t

upsert-Framed : (g : GlBalance) (s : Store) → Moves Framed (upsert_gl g) s
unfolding upsert_gl
upsert-Framed g s = record { at = λ a t h. ground arith }

pub post-Framed :
    (draws : Draws) (entries : List Entry) (day : ℕ) (ccy voucher ref : String) (s : Store)
    → Moves Framed (post draws entries day ccy voucher ref) s
unfolding post
post-Framed draws entries day ccy voucher ref s =
    Moves-bind Framed-Chains _ _ s (Moves-lift Framed-Chains _ s) λ _ t _.
      Moves-bind Framed-Chains _ _ t (insert_from-Framed _ 0 _ t) λ stored t _.
        Moves-bind Framed-Chains _ _ t (apply-Framed day _ t) λ _ t _.
          Moves-bind Framed-Chains _ _ t (upsert-Framed _ t)
            λ _ t _. Moves-pure Framed-Chains stored t

mark-Framed :
    (v : String) (status : TxnStatus) (s : Store) → Moves Framed (update_txn_status v status) s
unfolding update_txn_status
mark-Framed v status s = record { at = λ a t h. ground arith }

has_reversal-Framed : (id : String) (s : Store) → Moves Framed (has_reversal id) s
unfolding has_reversal
has_reversal-Framed id s = record { at = λ a t h. ground arith }

pub reverse_blue-Framed :
    (v : String) (day : ℕ) (origs : List Txn) (s : Store)
    → Moves Framed (reverse_blue v day origs) s
unfolding reverse_blue
reverse_blue-Framed v day origs s =
    Moves-bind Framed-Chains _ _ s (has_reversal-Framed _ s) λ has t _.
      Moves-bind Framed-Chains _ _ t (Moves-require Framed-Chains _ _ t) λ _ t _.
        Moves-bind Framed-Chains _ _ t (mark-Framed v _ t) λ _ t _.
          Moves-bind Framed-Chains _ _ t (apply-Framed day _ t) λ _ t _.
            Moves-bind Framed-Chains _ _ t (upsert-Framed _ t) λ _ t _. Moves-pure Framed-Chains _ t
