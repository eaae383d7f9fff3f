-- ===== src/Bank/CoreBanking/Trial.antt =====
-- The trial balance of the general ledger, over any sequence of the calls of
-- templates/bank/internal/corebanking/service.
use jiade.Prelude.{
  ℕ, String, true, false, ◌≡◌, refl, ◌∙◌, List, [], ◌∷◌, arith, Bool-cases, inl, inr,
}
use jiade.Bank.CoreBanking.Tx.{Store}
use jiade.Prelude.Int.{ℤ, pos, ◌+ℤ◌, int_laws, +ℤ_comm}
use jiade.Prelude.Int64.{wrap64}
use jiade.Bank.CoreBanking.Types.{ok, BalanceDelta, GlBalance}
use jiade.Bank.CoreBanking.Store.{apply_delta, apply_balance_deltas, is_gl_row, add_gl, upsert_gl}
use jiade.Bank.CoreBanking.Moves.{Moves, Chains, Moves-bind, Moves-pure}
use jiade.Bank.CoreBanking.Shares.{shares}

-- The debits and the credits of the whole general ledger.
unfoldable pub total_dc : List GlBalance → ℤ
total_dc [] = pos 0
total_dc (g ∷ rest) = g.dc_balance +ℤ total_dc rest

unfoldable pub total_cc : List GlBalance → ℤ
total_cc [] = pos 0
total_cc (g ∷ rest) = g.cc_balance +ℤ total_cc rest

-- The ledger's debits are its credits, and so are those of each voucher, as 64-bit words.
pub record IsBalanced (s : Store) : Type 0 where
  pub books : total_dc s.gl ≡ total_cc s.gl
  pub vouchers : (v : String) → wrap64 (shares false v s.txns) ≡ wrap64 (shares true v s.txns)

swap_last : (a g r : ℤ) → a +ℤ g +ℤ r ≡ a +ℤ r +ℤ g
swap_last a g r = omega int_laws

swap_next : (a g r : ℤ) → a +ℤ (r +ℤ g) ≡ a +ℤ r +ℤ g
swap_next a g r = omega int_laws

add_gl-total_dc :
    (g : GlBalance) (rows : List GlBalance)
    → total_dc (add_gl g rows) ≡ total_dc rows +ℤ g.dc_balance
unfolding total_dc add_gl
add_gl-total_dc g [] = +ℤ_comm _ _
add_gl-total_dc g (h ∷ rest) = elim (Bool-cases (is_gl_row g h)) [
  | inl e ↦ rw e (swap_last h.dc_balance g.dc_balance (total_dc rest))
  | inr e ↦ rw (e, add_gl-total_dc g rest) (swap_next h.dc_balance g.dc_balance (total_dc rest))
]

add_gl-total_cc :
    (g : GlBalance) (rows : List GlBalance)
    → total_cc (add_gl g rows) ≡ total_cc rows +ℤ g.cc_balance
unfolding total_cc add_gl
add_gl-total_cc g [] = +ℤ_comm _ _
add_gl-total_cc g (h ∷ rest) = elim (Bool-cases (is_gl_row g h)) [
  | inl e ↦ rw e (swap_last h.cc_balance g.cc_balance (total_cc rest))
  | inr e ↦ rw (e, add_gl-total_cc g rest) (swap_next h.cc_balance g.cc_balance (total_cc rest))
]

add_gl-books :
    (g : GlBalance) (rows : List GlBalance)
    → g.dc_balance ≡ g.cc_balance
    → total_dc rows ≡ total_cc rows
    → total_dc (add_gl g rows) ≡ total_cc (add_gl g rows)
add_gl-books g rows e h = rw (add_gl-total_dc g rows, add_gl-total_cc g rows, e, h) refl

pub upsert_gl-IsBalanced :
    (g : GlBalance) (s : Store) {t : Store}
    → upsert_gl g s ≡ ok (tt, t)
    → g.dc_balance ≡ g.cc_balance
    → IsBalanced s
    → IsBalanced t
unfolding upsert_gl
upsert_gl-IsBalanced g s {t} h e b = record {
  books = let same : t.gl ≡ add_gl g s.gl = ground arith in rw same (add_gl-books g s.gl e b.books);
  vouchers = λ v. let same : t.txns ≡ s.txns = ground arith in rw same (b.vouchers v);
}

-- The flows and the general ledger stay as they are.
pub record SameBooks (s t : Store) : Type 0 where
  pub same_txns : t.txns ≡ s.txns
  pub same_gl : t.gl ≡ s.gl

pub SameBooks-IsBalanced : (s t : Store) → SameBooks s t → IsBalanced s → IsBalanced t
SameBooks-IsBalanced s t e b = record {
  books = rw e.same_gl b.books;
  vouchers = λ v. rw e.same_txns (b.vouchers v);
}

SameBooks-Chains : Chains SameBooks
SameBooks-Chains = record {
  stay = λ s. record { same_txns = refl; same_gl = refl };
  step = λ s t u e f. record {
    same_txns = f.same_txns ∙ e.same_txns;
    same_gl = f.same_gl ∙ e.same_gl;
  };
}

apply_delta-SameBooks :
    (day : ℕ) (d : BalanceDelta) (s : Store) → Moves SameBooks (apply_delta day d) s
unfolding apply_delta
apply_delta-SameBooks day d s = record { at = λ a t h. ground arith }

pub apply-SameBooks :
    (day : ℕ) (deltas : List BalanceDelta) (s : Store)
    → Moves SameBooks (apply_balance_deltas day deltas) s
unfolding apply_balance_deltas
apply-SameBooks day [] s = Moves-pure SameBooks-Chains tt s
apply-SameBooks day (d ∷ rest) s =
    Moves-bind SameBooks-Chains _ _ s (apply_delta-SameBooks day d s)
      λ _ t _. apply-SameBooks day rest t
