-- ===== src/Bank/CoreBanking/Rounds.antt =====
-- The loops over accounts of `summarize` and `reverseRollback` in
-- templates/bank/internal/corebanking/service, round by round.
use jiade.Prelude.{
  ℕ, String, Bool, true, false, ◌≡◌, refl, sym, ap, ◌∙◌, List, [], ◌∷◌, str_eq, arith,
  if◌then◌else◌, Bool-cases, inl, inr, eq_iff,
}
use jiade.Prelude.Int.{ℤ, pos, ◌+ℤ◌, ◌-ℤ◌, int_laws, +ℤ_assoc, zero-+ℤ, +ℤ_zero}
use jiade.Prelude.Int64.{wrap64, add64, sub64}
use jiade.Bank.CoreBanking.Types.{DcFlag, debit, credit, Entry, Txn, BalanceDelta, is_credit}
use jiade.Bank.CoreBanking.Posting.{bump, by_acct, summarize, undo_by_acct, reverse_entries}
use jiade.Bank.CoreBanking.Words.{add64_wrap, sub64_wrap, wrap64_zero}

-- What an entry is worth to its account: a credit counts up, a debit down.
unfoldable pub worth : DcFlag → ℤ → ℤ
worth flag amount = if is_credit flag then amount else pos 0 -ℤ amount

-- The exact change that entries make to an account.
unfoldable pub net : String → List Entry → ℤ
net key [] = pos 0
net key (e ∷ rest) =
    if str_eq e.account_no key then worth e.dc_flag e.amount +ℤ net key rest else net key rest

-- The delta of an account in the result, 0 where it has none.
unfoldable pub delta_of : String → List BalanceDelta → ℤ
delta_of key [] = pos 0
delta_of key (d ∷ rest) = if str_eq d.account_no key then d.delta else delta_of key rest

plus_minus : (x a : ℤ) → x -ℤ a ≡ x +ℤ (pos 0 -ℤ a)
plus_minus x a = omega int_laws

pick_first :
    (b : Bool) (x y : ℤ) (f : ℤ → ℤ)
    → (if b then f x else y) ≡ (if b then f (if b then x else y) else if b then x else y)
pick_first true x y f = refl
pick_first false x y f = refl

pick_other :
    (key k no' : String) (x y : ℤ) (f : ℤ → ℤ)
    → str_eq no' k ≡ false
    → (if str_eq no' key then x else if str_eq k key then f y else y) ≡ (
        if str_eq k key
        then f (if str_eq no' key then x else y)
        else if str_eq no' key
        then x
        else y)
pick_other key k no' x y f e = ground (arith, eq_iff no' k, eq_iff no' key, eq_iff k key)

delta_of-bump :
    (key k subject : String) (f : ℤ → ℤ) (acc : List BalanceDelta)
    → delta_of key (bump k subject f acc)
      ≡ (if str_eq k key then f (delta_of key acc) else delta_of key acc)
unfolding delta_of bump
delta_of-bump key k subject f [] = refl
delta_of-bump key k subject f (d ∷ rest) = elim (Bool-cases (str_eq d.account_no k)) [
  | inl e ↦
      let same : d.account_no ≡ k = (eq_iff d.account_no k).0 e in
      rw (e, same) (pick_first (str_eq k key) d.delta (delta_of key rest) f)
  | inr e ↦
      rw (e, delta_of-bump key k subject f rest)
        (pick_other key k d.account_no d.delta (delta_of key rest) f e)
]

-- One round of the two loops, as words.
add_or_sub :
    (flag : DcFlag) (amount x : ℤ)
    → (if is_credit flag then add64 (wrap64 x) amount else sub64 (wrap64 x) amount)
      ≡ wrap64 (x +ℤ worth flag amount)
unfolding worth
add_or_sub flag amount x = elim (Bool-cases (is_credit flag)) [
  | inl c ↦ rw c (add64_wrap x amount)
  | inr c ↦ rw c (sub64_wrap x amount ∙ ap wrap64 (plus_minus x amount))
]

-- A round of either loop, for an entry of its own account and of another.
module _ (key k subject : String) (acc : List BalanceDelta) (f : ℤ → ℤ) where
  own_round :
      (y : ℤ)
      → str_eq k key ≡ true
      → f (delta_of key acc) ≡ y
      → delta_of key (bump k subject f acc) ≡ y
  own_round y c h = delta_of-bump key k subject f acc ∙ rw c h

  other_round :
      (y : ℤ)
      → str_eq k key ≡ false
      → delta_of key acc ≡ y
      → delta_of key (bump k subject f acc) ≡ y
  other_round y c h = delta_of-bump key k subject f acc ∙ rw c h

abbrev counted : DcFlag → ℤ → ℤ → ℤ
counted flag amount d = if is_credit flag then add64 d amount else sub64 d amount

abbrev taken : DcFlag → ℤ → ℤ → ℤ
taken flag amount d = if is_credit flag then sub64 d amount else add64 d amount

by_acct_lem :
    (key : String) (entries : List Entry) (acc : List BalanceDelta) (x : ℤ)
    → delta_of key acc ≡ wrap64 x
    → delta_of key (by_acct entries acc) ≡ wrap64 (x +ℤ net key entries)
unfolding by_acct net
by_acct_lem key [] acc x h = h ∙ ap wrap64 (sym (+ℤ_zero x))
by_acct_lem key (e ∷ rest) acc x h = elim (Bool-cases (str_eq e.account_no key)) [
  | inl c ↦
      rw (c, ← +ℤ_assoc x (worth e.dc_flag e.amount) (net key rest))
        (by_acct_lem key rest (bump e.account_no e.subject_code (counted e.dc_flag e.amount) acc)
          (x +ℤ worth e.dc_flag e.amount)
          (own_round key e.account_no e.subject_code acc (counted e.dc_flag e.amount)
            (wrap64 (x +ℤ worth e.dc_flag e.amount)) c (rw h (add_or_sub e.dc_flag e.amount x))))
  | inr c ↦ rw c (
      by_acct_lem key rest (bump e.account_no e.subject_code (counted e.dc_flag e.amount) acc) x (
        other_round key e.account_no e.subject_code acc (counted e.dc_flag e.amount) (wrap64 x) c
          h))
]

-- Every account's delta of a posting is the exact sum of its entries, credits counted up and debits
-- down, as a 64-bit word.
pub summarize-delta_of :
    (key : String) (entries : List Entry) (day : ℕ) (ccy voucher ref : String)
    → delta_of key ((summarize entries day ccy voucher ref).1) ≡ wrap64 (net key entries)
unfolding summarize delta_of
summarize-delta_of key entries day ccy voucher ref =
    by_acct_lem key entries [] (pos 0) (sym wrap64_zero) ∙ ap wrap64 (zero-+ℤ _)

sub_or_add :
    (flag : DcFlag) (amount x : ℤ)
    → (if is_credit flag then sub64 (wrap64 x) amount else add64 (wrap64 x) amount)
      ≡ wrap64 (x +ℤ worth (if is_credit flag then debit else credit) amount)
unfolding worth
sub_or_add flag amount x = elim (Bool-cases (is_credit flag)) [
  | inl c ↦ rw c (sub64_wrap x amount ∙ ap wrap64 (plus_minus x amount))
  | inr c ↦ rw c (add64_wrap x amount)
]

abbrev pub flipped : DcFlag → DcFlag
flipped flag = if is_credit flag then debit else credit

pub undo_by_acct_lem :
    (key : String) (txns : List Txn) (acc : List BalanceDelta) (x : ℤ)
    → delta_of key acc ≡ wrap64 x
    → delta_of key (undo_by_acct txns acc) ≡ wrap64 (x +ℤ net key (reverse_entries txns))
unfolding undo_by_acct net reverse_entries
undo_by_acct_lem key [] acc x h = h ∙ ap wrap64 (sym (+ℤ_zero x))
undo_by_acct_lem key (t ∷ rest) acc x h = elim (Bool-cases (str_eq t.account_no key)) [
  | inl c ↦
      rw (c, ← +ℤ_assoc x (worth (flipped t.dc_flag) t.amount) (net key (reverse_entries rest)))
        (undo_by_acct_lem key rest (bump t.account_no t.subject_code (taken t.dc_flag t.amount) acc)
          (x +ℤ worth (flipped t.dc_flag) t.amount)
          (own_round key t.account_no t.subject_code acc (taken t.dc_flag t.amount)
            (wrap64 (x +ℤ worth (flipped t.dc_flag) t.amount)) c
            (rw h (sub_or_add t.dc_flag t.amount x))))
  | inr c ↦ rw c (
      undo_by_acct_lem key rest (bump t.account_no t.subject_code (taken t.dc_flag t.amount) acc) x
        (other_round key t.account_no t.subject_code acc (taken t.dc_flag t.amount) (wrap64 x) c h))
]
