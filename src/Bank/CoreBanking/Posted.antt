-- ===== src/Bank/CoreBanking/Posted.antt =====
-- `Post` and the blue reversal of templates/bank/internal/corebanking/service keep the trial balance.
use jiade.Prelude.{
  ℕ, ◌+◌, String, Bool, true, false, ◌≡◌, refl, sym, ap, subst, ◌∙◌, List, [], ◌∷◌, str_eq, arith,
  if◌then◌else◌, Bool-cases, inl, inr,
}
use jiade.Bank.CoreBanking.Tx.{Store, Draws}
use jiade.Prelude.Int.{ℤ, pos, zero-+ℤ}
use jiade.Prelude.Int64.{wrap64}
use jiade.Bank.CoreBanking.Types.{ok, TxnStatus, reversed, Entry, Txn}
use jiade.Bank.CoreBanking.Posting.{
  validate_balance, gl_sides, txns_of, summarize, undo_gl_sides, reverse_rollback,
}
use jiade.Bank.CoreBanking.Tables.{
  insert_txn, insert_from, of_voucher, has_reversal, mark, update_txn_status,
}
use jiade.Bank.CoreBanking.Services.{post, ReverseResult, reverse_blue}
use jiade.Bank.CoreBanking.Moves.{
  Moves, >>=-eq-ok, Chains, Moves-bind, Moves-pure, guard-eq-ok, lift-eq-ok, pure-eq-ok,
}
use jiade.Bank.CoreBanking.Words.{wrap64-+ℤ, wrap64--ℤ, wrap64_zero}
use jiade.Bank.CoreBanking.Sides.{side, gl_sides_lem, validate_balance-eq-ok}
use jiade.Bank.CoreBanking.Shares.{
  shares, insert_from-shares, txns_of-shares, mark-shares, undo_gl_sides-shares,
}
use jiade.Bank.CoreBanking.Trial.{
  IsBalanced, upsert_gl-IsBalanced, SameBooks-IsBalanced, apply-SameBooks,
}

sides_wrapped :
    (entries : List Entry)
    → gl_sides entries (pos 0) (pos 0) ≡ (wrap64 (side false entries), wrap64 (side true entries))
sides_wrapped entries =
    rw
      (
        ← zero-+ℤ (side false entries),
        ← zero-+ℤ (side true entries),
        ← gl_sides_lem entries (pos 0) (pos 0),
        wrap64_zero,
      )
      refl

-- Entries that are accepted weigh the same on both sides.
accepted :
    (entries : List Entry) {d c : ℤ}
    → validate_balance entries ≡ ok (d, c)
    → wrap64 (side false entries) ≡ wrap64 (side true entries)
accepted entries h =
    let (both, same) = validate_balance-eq-ok entries h in
    let sides = sym (sides_wrapped entries) ∙ both in
    ap (λ p. p.0) sides ∙ same ∙ sym (ap (λ p. p.1) sides)

same_words :
    (c : Bool) (v w : String) (entries : List Entry)
    → wrap64 (side false entries) ≡ wrap64 (side true entries)
    → wrap64 (if str_eq w v then side false entries else pos 0)
      ≡ wrap64 (if str_eq w v then side true entries else pos 0)
same_words c v w entries h = elim (Bool-cases (str_eq w v)) [ inl e ↦ rw e h | inr e ↦ rw e refl ]

SameGl : Store → Store → Type 0
SameGl s t = t.gl ≡ s.gl

insert_txn-SameGl : (drawn : String) (x : Txn) (s : Store) → Moves SameGl (insert_txn drawn x) s
unfolding insert_txn SameGl
insert_txn-SameGl drawn x s = record { at = λ a t h. ground arith }

SameGl-Chains : Chains SameGl
unfolding SameGl
SameGl-Chains = record { stay = λ s. refl; step = λ s t u e f. f ∙ e }

insert_from-SameGl :
    (draw : ℕ → String) (k : ℕ) (txns : List Txn) (s : Store)
    → Moves SameGl (insert_from draw k txns) s
unfolding insert_from
insert_from-SameGl draw k [] s = Moves-pure SameGl-Chains [] s
insert_from-SameGl draw k (x ∷ rest) s =
    Moves-bind SameGl-Chains _ _ s (insert_txn-SameGl _ x s) λ new t _.
      Moves-bind SameGl-Chains _ _ t (insert_from-SameGl draw (k + 1) rest t)
        λ others u _. Moves-pure SameGl-Chains _ u

insert_from-IsBalanced :
    (draw : ℕ → String) (day : ℕ) (ccy w ref : String) (entries : List Entry) (s : Store)
    {out : List Txn} {t : Store}
    → insert_from draw 0 (txns_of day ccy w ref entries) s ≡ ok (out, t)
    → wrap64 (side false entries) ≡ wrap64 (side true entries)
    → IsBalanced s
    → IsBalanced t
unfolding SameGl
insert_from-IsBalanced draw day ccy w ref entries s {out} {t} h e b = record {
  books = rw ((insert_from-SameGl draw 0 _ s).at out t h) b.books;
  vouchers = λ v.
      rw
        (
          insert_from-shares false v draw 0 _ s h,
          insert_from-shares true v draw 0 _ s h,
          txns_of-shares false v day ccy w ref entries,
          txns_of-shares true v day ccy w ref entries,
        )
        (wrap64-+ℤ _ _ _ _ (b.vouchers v) (same_words true v w entries e));
}

pub post-IsBalanced :
    (draws : Draws) (entries : List Entry) (day : ℕ) (ccy voucher ref : String) (s : Store)
    {out : List Txn} {t : Store}
    → post draws entries day ccy voucher ref s ≡ ok (out, t)
    → IsBalanced s
    → IsBalanced t
unfolding post summarize
post-IsBalanced draws entries day ccy voucher ref s {out} {t} h b =
    let ((d, c), s1, e1, h1) = >>=-eq-ok _ _ s h in
    let (valid, same) = lift-eq-ok (validate_balance entries) s e1 in
    let (stored, s2, e2, h2) = >>=-eq-ok _ _ s1 h1 in
    let (_, s3, e3, h3) = >>=-eq-ok _ _ s2 h2 in
    let (_, s4, e4, h4) = >>=-eq-ok _ _ s3 h3 in
    let (_, last) = pure-eq-ok stored s4 h4 in
    let equal = accepted entries valid in
    let b1 : IsBalanced s1 = subst IsBalanced same b in
    let b2 = insert_from-IsBalanced _ day ccy voucher ref entries s1 e2 equal b1 in
    let b3 = SameBooks-IsBalanced s2 s3 ((apply-SameBooks day _ s2).at tt s3 e3) b2 in
    let (both, balanced) = validate_balance-eq-ok entries valid in
    let b4 =
      upsert_gl-IsBalanced _ s3 e4 (ap (λ p. p.0) both ∙ balanced ∙ sym (ap (λ p. p.1) both)) b3 in
    subst IsBalanced last b4

-- Flows that weigh the same on both sides are taken back with the same weight.
undone_sides :
    (v : String) (txns : List Txn)
    → wrap64 (shares false v txns) ≡ wrap64 (shares true v txns)
    → (undo_gl_sides (of_voucher v txns) (pos 0) (pos 0)).0
      ≡ (undo_gl_sides (of_voucher v txns) (pos 0) (pos 0)).1
undone_sides v txns h =
    let taken = undo_gl_sides-shares v txns (pos 0) (pos 0) in
    let zeros = λ (x : ℤ). undo_gl_sides (of_voucher v txns) x x in
    let both = ap zeros (sym wrap64_zero) ∙ taken in
    ap (λ p. p.0) both ∙ wrap64--ℤ (pos 0) _ _ h ∙ sym (ap (λ p. p.1) both)

has_reversal-eq-ok :
    (id : String) (s : Store) {a : Bool} {t : Store} → has_reversal id s ≡ ok (a, t) → s ≡ t
unfolding has_reversal
has_reversal-eq-ok id s h = cc

update_txn_status-IsBalanced :
    (v : String) (status : TxnStatus) (s : Store) {t : Store}
    → update_txn_status v status s ≡ ok (tt, t)
    → IsBalanced s
    → IsBalanced t
unfolding update_txn_status
update_txn_status-IsBalanced v status s {t} h b = record {
  books = let same : t.gl ≡ s.gl = ground arith in rw same b.books;
  vouchers = λ w.
      let marked : t.txns ≡ mark v status s.txns = ground arith in
      rw (marked, mark-shares false w v status s.txns, mark-shares true w v status s.txns)
        (b.vouchers w);
}

pub reverse_blue-IsBalanced :
    (v : String) (day : ℕ) (s : Store) {out : ReverseResult} {t : Store}
    → reverse_blue v day (of_voucher v s.txns) s ≡ ok (out, t)
    → IsBalanced s
    → IsBalanced t
unfolding reverse_blue reverse_rollback
reverse_blue-IsBalanced v day s h b =
    let (has, s1, e1, h1) = >>=-eq-ok _ _ s h in
    let (_, h2) = guard-eq-ok _ _ _ s1 h1 in
    let (_, s3, e3, h3) = >>=-eq-ok _ _ s1 h2 in
    let (_, s4, e4, h4) = >>=-eq-ok _ _ s3 h3 in
    let (_, s5, e5, h5) = >>=-eq-ok _ _ s4 h4 in
    let (_, last) = pure-eq-ok _ s5 h5 in
    let b1 = subst IsBalanced (has_reversal-eq-ok _ s e1) b in
    let b3 = update_txn_status-IsBalanced v reversed s1 e3 b1 in
    let b4 = SameBooks-IsBalanced s3 s4 ((apply-SameBooks day _ s3).at tt s4 e4) b3 in
    subst IsBalanced last (upsert_gl-IsBalanced _ s4 e5 (undone_sides v s.txns (b.vouchers v)) b4)
