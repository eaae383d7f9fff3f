-- ===== src/Bank/CoreBanking/Shares.antt =====
-- The amounts that the flows of a voucher carry on each side, in the table that
-- templates/bank/internal/corebanking/repo/ledger_repo.go writes.
use jiade.Prelude.{
  ℕ, ◌+◌, String, Bool, true, false, not, ◌&&◌, ◌≡◌, refl, sym, ap, ◌∙◌, List, [], ◌∷◌, ◌++◌,
  str_eq, arith, if◌then◌else◌, Bool-cases, inl, inr,
}
use jiade.Bank.CoreBanking.Tx.{Store, pure}
use jiade.Prelude.Int.{ℤ, pos, ◌+ℤ◌, ◌-ℤ◌, int_laws, +ℤ_assoc, zero-+ℤ, -ℤ_zero, +ℤ_zero}
use jiade.Bank.CoreBanking.Types.{ok, TxnStatus, DcFlag, Entry, Txn, is_credit}
use jiade.Bank.CoreBanking.Moves.{>>=-eq-ok}
use jiade.Bank.CoreBanking.Sides.{side}
use jiade.Bank.CoreBanking.Words.{sub64_wrap}
use jiade.Prelude.Int64.{wrap64}
use jiade.Bank.CoreBanking.Posting.{txn_of, txns_of, undo_gl_sides}
use jiade.Bank.CoreBanking.Tables.{
  insert_txn, insert_from, of_voucher, is_normal_of, mark, summarized,
}

abbrev pub on_side : Bool → DcFlag → Bool
on_side true flag = is_credit flag
on_side false flag = not (is_credit flag)

unfoldable pub share : Bool → String → Txn → ℤ
share c v t = if str_eq t.voucher_no v && on_side c t.dc_flag then t.amount else pos 0

unfoldable pub shares : Bool → String → List Txn → ℤ
shares c v [] = pos 0
shares c v (t ∷ rest) = share c v t +ℤ shares c v rest

shares-append :
    (c : Bool) (v : String) (xs ys : List Txn)
    → shares c v (xs ++ ys) ≡ shares c v xs +ℤ shares c v ys
unfolding shares
shares-append c v [] ys = sym (zero-+ℤ _)
shares-append c v (x ∷ xs) ys =
    ap (λ z. share c v x +ℤ z) (shares-append c v xs ys) ∙ sym (+ℤ_assoc _ _ _)

shares_one : (c : Bool) (v : String) (x : Txn) → shares c v (x ∷ []) ≡ share c v x
unfolding shares
shares_one c v x = +ℤ_zero _

insert_txn-shares :
    (c : Bool) (v drawn : String) (x : Txn) (s : Store) {y : Txn} {t : Store}
    → insert_txn drawn x s ≡ ok (y, t)
    → shares c v t.txns ≡ shares c v s.txns +ℤ share c v x
unfolding insert_txn share
insert_txn-shares c v drawn x s {y} {t} h =
    let grown : t.txns ≡ s.txns ++ y ∷ [] = ground arith in
    let same : share c v y ≡ share c v x = ground arith in
    rw (grown, shares-append c v s.txns (y ∷ []), shares_one, same) refl

pub insert_from-shares :
    (c : Bool) (v : String) (draw : ℕ → String) (k : ℕ) (txns : List Txn) (s : Store)
    {out : List Txn} {t : Store}
    → insert_from draw k txns s ≡ ok (out, t)
    → shares c v t.txns ≡ shares c v s.txns +ℤ shares c v txns
unfolding insert_from pure shares
insert_from-shares c v draw k [] s {out} {t} h =
    let same : s ≡ t = ground arith in rw (← same) (sym (+ℤ_zero _))
insert_from-shares c v draw k (x ∷ rest) s {out} {t} h =
    let (new, s1, e1, h1) = >>=-eq-ok _ _ s h in
    let (others, s2, e2, h2) = >>=-eq-ok _ _ s1 h1 in
    let same : s2 ≡ t = ground arith in
    let later = insert_from-shares c v draw (k + 1) rest s1 e2 in
    ap (λ (z : Store). shares c v z.txns) (sym same)
    ∙ later
    ∙ ap (λ z. z +ℤ shares c v rest) (insert_txn-shares c v (draw k) x s e1)
    ∙ +ℤ_assoc _ _ _

-- The flows that `summarize` makes carry the sides of their entries.
pub txns_of-shares :
    (c : Bool) (v : String) (day : ℕ) (ccy w ref : String) (entries : List Entry)
    → shares c v (txns_of day ccy w ref entries) ≡ (if str_eq w v then side c entries else pos 0)
unfolding shares share side txn_of
txns_of-shares c v day ccy w ref [] = ground arith
txns_of-shares true v day ccy w ref (e ∷ rest) =
    ground
      (arith, txns_of-shares true v day ccy w ref rest, zero-+ℤ (pos 0), zero-+ℤ (side true rest))
txns_of-shares false v day ccy w ref (e ∷ rest) =
    ground
      (arith, txns_of-shares false v day ccy w ref rest, zero-+ℤ (pos 0), zero-+ℤ (side false rest))

pub mark-shares :
    (c : Bool) (v w : String) (status : TxnStatus) (txns : List Txn)
    → shares c v (mark w status txns) ≡ shares c v txns
unfolding shares mark share
mark-shares c v w status [] = refl
mark-shares c v w status (t ∷ rest) = elim (Bool-cases (is_normal_of w t)) [
  | inl e ↦ rw (e, mark-shares c v w status rest) refl
  | inr e ↦ rw (e, mark-shares c v w status rest) refl
]

pub summarized-shares :
    (c : Bool) (v w summary : String) (txns : List Txn)
    → shares c v (summarized w summary txns) ≡ shares c v txns
unfolding shares summarized share
summarized-shares c v w summary [] = refl
summarized-shares c v w summary (t ∷ rest) = elim (Bool-cases (str_eq t.voucher_no w)) [
  | inl e ↦ rw (e, summarized-shares c v w summary rest) refl
  | inr e ↦ rw (e, summarized-shares c v w summary rest) refl
]

sub_step : (a x y : ℤ) → a -ℤ x -ℤ y ≡ a -ℤ (x +ℤ y)
sub_step a x y = omega int_laws

undo_credit :
    (t : Txn) (rest : List Txn) (a b : ℤ)
    → is_credit t.dc_flag ≡ true
    → undo_gl_sides (t ∷ rest) (wrap64 a) (wrap64 b)
      ≡ undo_gl_sides rest (wrap64 a) (wrap64 (b -ℤ t.amount))
unfolding undo_gl_sides
undo_credit t rest a b c = rw (c, sub64_wrap) refl

undo_debit :
    (t : Txn) (rest : List Txn) (a b : ℤ)
    → is_credit t.dc_flag ≡ false
    → undo_gl_sides (t ∷ rest) (wrap64 a) (wrap64 b)
      ≡ undo_gl_sides rest (wrap64 (a -ℤ t.amount)) (wrap64 b)
unfolding undo_gl_sides
undo_debit t rest a b c = rw (c, sub64_wrap) refl

share_in :
    (c : Bool) (v : String) (t : Txn) (b : Bool)
    → str_eq t.voucher_no v ≡ true
    → on_side c t.dc_flag ≡ b
    → share c v t ≡ (if b then t.amount else pos 0)
unfolding share
share_in c v t b e f = rw (e, f) refl

share_out : (c : Bool) (v : String) (t : Txn) → str_eq t.voucher_no v ≡ false → share c v t ≡ pos 0
unfolding share
share_out c v t e = rw e refl

of_voucher_in :
    (v : String) (t : Txn) (rest : List Txn)
    → str_eq t.voucher_no v ≡ true
    → of_voucher v (t ∷ rest) ≡ t ∷ of_voucher v rest
unfolding of_voucher
of_voucher_in v t rest e = rw e refl

of_voucher_out :
    (v : String) (t : Txn) (rest : List Txn)
    → str_eq t.voucher_no v ≡ false
    → of_voucher v (t ∷ rest) ≡ of_voucher v rest
unfolding of_voucher
of_voucher_out v t rest e = rw e refl

undo_none :
    (v : String) (a b : ℤ)
    → undo_gl_sides (of_voucher v []) (wrap64 a) (wrap64 b)
      ≡ (wrap64 (a -ℤ pos 0), wrap64 (b -ℤ pos 0))
unfolding undo_gl_sides of_voucher
undo_none v a b = rw (-ℤ_zero a, -ℤ_zero b) refl

-- The totals that the blue reversal of a voucher takes back.
pub undo_gl_sides-shares :
    (v : String) (txns : List Txn) (a b : ℤ)
    → undo_gl_sides (of_voucher v txns) (wrap64 a) (wrap64 b)
      ≡ (wrap64 (a -ℤ shares false v txns), wrap64 (b -ℤ shares true v txns))
unfolding shares
undo_gl_sides-shares v [] a b = undo_none v a b
undo_gl_sides-shares v (t ∷ rest) a b = elim (Bool-cases (str_eq t.voucher_no v)) [
  | inr e ↦
      rw
        (
          of_voucher_out v t rest e,
          share_out true v t e,
          share_out false v t e,
          zero-+ℤ (shares true v rest),
          zero-+ℤ (shares false v rest),
        )
        (undo_gl_sides-shares v rest a b)
  | inl e ↦ elim (Bool-cases (is_credit t.dc_flag)) [
    | inl c ↦
        rw
          (
            of_voucher_in v t rest e,
            undo_credit t (of_voucher v rest) a b c,
            undo_gl_sides-shares v rest a (b -ℤ t.amount),
            share_in true v t true e c,
            share_in false v t false e (ap not c),
            sub_step,
            zero-+ℤ (shares false v rest),
          )
          refl
    | inr c ↦
        rw
          (
            of_voucher_in v t rest e,
            undo_debit t (of_voucher v rest) a b c,
            undo_gl_sides-shares v rest (a -ℤ t.amount) b,
            share_in true v t false e c,
            share_in false v t true e (ap not c),
            sub_step,
            zero-+ℤ (shares true v rest),
          )
          refl
  ]
]
