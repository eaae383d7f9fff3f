-- ===== src/Bank/CoreBanking/Ended.antt =====
-- The end of a hold: `Release` of
-- templates/bank/internal/corebanking/domain/hold.go, and `ReleaseHold` of
-- service/hold_service.go.
use jiade.Prelude.{
  String, Bool, true, false, ◌&&◌, ◌≡◌, ◌≢◌, ◌⊎◌, refl, ap, ◌∙◌, some, List, [], ◌∷◌, str_eq, arith,
  if◌then◌else◌, Bool-cases, inl, inr,
}
use jiade.Bank.CoreBanking.Tx.{Store, when, ◌>>=◌, lift, pure}
use jiade.Prelude.Int.{ℤ, pos, ◌+ℤ◌, +ℤ_comm, +ℤ_assoc, +ℤ_zero}
use jiade.Bank.CoreBanking.Types.{
  Error, hold_captured, invalid_hold_transition, ok, err, active, HoldStatus, released, captured,
  Hold, is_active, release,
}
use jiade.Bank.CoreBanking.Tables.{hold_of_id, lock_hold_by_id, with_status, set_hold_status}
use jiade.Bank.CoreBanking.Services.{release_hold}
use jiade.Bank.CoreBanking.Reserves.{active_sum}

-- What a hold counts for in the sum of the active holds of an account.
abbrev pub counts_for : String → Hold → ℤ
counts_for account h = if str_eq h.account_no account && is_active h.status then h.amount else pos 0

-- The first hold with an id is the one whose status is written.
written :
    (id : String) (status : HoldStatus) (was : Hold) (holds : List Hold)
    → hold_of_id id holds ≡ some was
    → hold_of_id id (with_status id status holds) ≡ some (record was { status = status })
unfolding hold_of_id with_status
written id status was [] e = cc
written id status was (h ∷ rest) e = elim (Bool-cases (str_eq h.hold_id id)) [
  | inl c ↦
      let same : some h ≡ some was = rw c at e in
      let same_hold : h ≡ was = cc in rw (c, c, same_hold) refl
  | inr c ↦ rw (c, c) (written id status was rest (rw c at e))
]

freed_one :
    (x r : ℤ) (mine now : Bool)
    → (if mine && false then x +ℤ r else r) +ℤ (if mine && now then x else pos 0)
      ≡ (if mine && now then x +ℤ r else r)
freed_one x r true true = +ℤ_comm r x
freed_one x r true false = +ℤ_zero r
freed_one x r false now = +ℤ_zero r

kept_beside :
    (x a b f : ℤ) (counts : Bool)
    → a +ℤ f ≡ b
    → (if counts then x +ℤ a else a) +ℤ f ≡ (if counts then x +ℤ b else b)
kept_beside x a b f true h = +ℤ_assoc x a f ∙ ap (λ z. x +ℤ z) h
kept_beside x a b f false h = h

freed_sum :
    (account id : String) (status : HoldStatus) (was : Hold) (holds : List Hold)
    → is_active status ≡ false
    → hold_of_id id holds ≡ some was
    → active_sum account (with_status id status holds) +ℤ counts_for account was
      ≡ active_sum account holds
unfolding hold_of_id with_status active_sum
freed_sum account id status was [] a e = cc
freed_sum account id status was (h ∷ rest) a e = elim (Bool-cases (str_eq h.hold_id id)) [
  | inl c ↦
      let same : some h ≡ some was = rw c at e in
      let same_hold : h ≡ was = cc in
      rw (c, a, same_hold)
        (freed_one was.amount (active_sum account rest) (str_eq was.account_no account)
          (is_active was.status))
  | inr c ↦ rw c (
      kept_beside h.amount (active_sum account (with_status id status rest))
        (active_sum account rest) (counts_for account was)
        (str_eq h.account_no account && is_active h.status)
        (freed_sum account id status was rest a (rw c at e)))
]

-- What a release of a hold that can be released leaves.
pub record IsFreed (account id : String) (was : Hold) (s t : Store) : Type 0 where
  pub answer : release_hold id s ≡ ok (record was { status = released }, t)
  pub stored : hold_of_id id t.holds ≡ some (record was { status = released })
  pub sum : active_sum account t.holds +ℤ counts_for account was ≡ active_sum account s.holds
  pub rest_kept : t ≡ record s { holds = t.holds }

IsFreed-active :
    (account id : String) (s : Store) (was : Hold)
    → hold_of_id id s.holds ≡ some was
    → was.status ≡ active
    → IsFreed account id was s (record s { holds = with_status id released s.holds })
unfolding release_hold ◌>>=◌ lock_hold_by_id lift release when set_hold_status pure
IsFreed-active account id s was e q = record {
  answer = rw (release_hold, lock_hold_by_id, e, q) refl;
  stored = written id released was s.holds e;
  sum = freed_sum account id released was s.holds refl e;
  rest_kept = refl;
}

IsFreed-again :
    (account id : String) (s : Store) (was : Hold)
    → hold_of_id id s.holds ≡ some was
    → was.status ≡ released
    → IsFreed account id was s s
unfolding release_hold ◌>>=◌ lock_hold_by_id lift release when set_hold_status pure
IsFreed-again account id s was e q = record {
  answer = rw (release_hold, lock_hold_by_id, e, q) refl;
  stored = e ∙ ap (λ status. some (record was { status = status })) q;
  sum = rw q (ground (arith, +ℤ_zero (active_sum account s.holds)));
  rest_kept = refl;
}

-- For a hold that is stored, active or released, `ReleaseHold` goes through: it answers the hold as
-- released and stores it so, the sum of the active holds of any account falls by exactly the
-- hold's amount if it is the account's and was active, and stays otherwise, and nothing but the
-- holds is changed. For a hold that is stored and neither, such as a captured one, it fails.
pub release_hold-frees :
    (account id : String) (s : Store) (was : Hold)
    → hold_of_id id s.holds ≡ some was
    → ((was.status ≡ active) ⊎ (was.status ≡ released)) × ((t : Store) × IsFreed account id was s t)
      ⊎ (was.status ≢ active)
        × (was.status ≢ released)
        × ((x : Error) × (release_hold id s ≡ err x))
unfolding release_hold ◌>>=◌ lock_hold_by_id lift release when set_hold_status pure
release_hold-frees account id s was e = go was.status refl
  where
    go :
        (status : HoldStatus)
        → was.status ≡ status
        → ((was.status ≡ active) ⊎ (was.status ≡ released))
            × ((t : Store) × IsFreed account id was s t)
          ⊎ (was.status ≢ active)
            × (was.status ≢ released)
            × ((x : Error) × (release_hold id s ≡ err x))
    go active q = inl (inl q, (_, IsFreed-active account id s was e q))
    go released q = inl (inr q, (s, IsFreed-again account id s was e q))
    go captured q = inr (
      (λ a. absurd (cc)),
      (λ r. absurd (cc)),
      (hold_captured, rw (release_hold, lock_hold_by_id, e, q) refl),
    )
    go (HoldStatus.other x) q = inr (
      (λ a. absurd (cc)),
      (λ r. absurd (cc)),
      (invalid_hold_transition, rw (release_hold, lock_hold_by_id, e, q) refl),
    )
