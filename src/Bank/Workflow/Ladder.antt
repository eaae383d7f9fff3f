-- ===== src/Bank/Workflow/Ladder.antt =====
-- The shapes that the records of an instance of templates/bank/internal/platform/workflow/engine.go
-- go through: succeeded ones below the current one, and settled ones above it.
use mathlib.Core.Path.{subst}
use jiade.Prelude.{
  ◌⊎◌, true, String, ℕ, zero, suc, ◌+◌, ◌<◌, ◌≡◌, ◌≢◌, refl, sym, ap, some, List, [], ◌∷◌, length,
  get_elem?, arith,
}
use jiade.Bank.Workflow.Types.{ActionRecord, ActionStatus, failed}
use jiade.Bank.Workflow.Tx.{put_at}
use jiade.Bank.Workflow.Admin.{find_action, is_stuck}
use jiade.Bank.Workflow.Engine.{last_succeeded_before}

-- In each, the record at a position carries that position, counted from `k`.
abbrev pub Done : ℕ → List ActionRecord → Type 0
Done k [] = Unit
Done k (r ∷ rs) = (r.index ≡ k) × (r.status ≡ ActionStatus.succeeded) × Done (suc k) rs

-- An action that has nothing left to undo: it failed, or it was compensated.
abbrev pub IsSettled : ActionStatus → Type 0
IsSettled s = (s ≡ failed) ⊎ (s ≡ ActionStatus.compensated)

abbrev pub Undone : ℕ → List ActionRecord → Type 0
Undone k [] = Unit
Undone k (r ∷ rs) = (r.index ≡ k) × IsSettled r.status × Undone (suc k) rs

-- `c` records that succeeded, one of status `s`, and settled ones above it.
abbrev pub Ladder : ActionStatus → ℕ → ℕ → List ActionRecord → Type 0
Ladder s k c [] = ⊥
Ladder s k zero (r ∷ rs) = (r.index ≡ k) × (r.status ≡ s) × Undone (suc k) rs
Ladder s k (suc c) (r ∷ rs) =
    (r.index ≡ k) × (r.status ≡ ActionStatus.succeeded) × Ladder s (suc k) c rs

-- The record on top is found, with its position.
pub Ladder-top :
    (s : ActionStatus) (k c : ℕ) (xs : List ActionRecord) (r : ActionRecord)
    → Ladder s k c xs
    → get_elem? xs c ≡ some r
    → (r.index ≡ k + c) × (r.status ≡ s)
Ladder-top s k c [] r h g = absurd h
Ladder-top s k zero (x ∷ xs) r h g = ground arith
Ladder-top s k (suc c) (x ∷ xs) r h g = ground (arith, Ladder-top s (suc k) c xs r h.2 g)

-- Writing the record on top changes its status alone.
pub Ladder-put :
    (s s' : ActionStatus) (k c : ℕ) (xs : List ActionRecord) (r : ActionRecord)
    → Ladder s k c xs
    → r.index ≡ k + c
    → r.status ≡ s'
    → Ladder s' k c (put_at k xs c r)
unfolding put_at
Ladder-put s s' k c [] r h i e = absurd h
Ladder-put s s' k zero (x ∷ xs) r h i e = (omega arith, e, h.2)
Ladder-put s s' k (suc c) (x ∷ xs) r h i e =
    (h.0, h.1, Ladder-put s s' (suc k) c xs r h.2 (omega arith) e)

-- A record put on top of records that all succeeded.
pub Done-put :
    (s : ActionStatus) (k : ℕ) (xs : List ActionRecord) (r : ActionRecord)
    → Done k xs
    → r.index ≡ k + length xs
    → r.status ≡ s
    → Ladder s k (length xs) (put_at k xs (length xs) r)
unfolding put_at
Done-put s k [] r h i e = (omega arith, e, tt)
Done-put s k (x ∷ xs) r h i e = (h.0, h.1, Done-put s (suc k) xs r h.2 (omega arith) e)

pub Ladder-Done :
    (k c : ℕ) (xs : List ActionRecord)
    → Ladder ActionStatus.succeeded k c xs
    → length xs ≡ suc c
    → Done k xs
Ladder-Done k c [] h l = tt
Ladder-Done k zero (x ∷ []) h l = (h.0, h.1, tt)
Ladder-Done k zero (x ∷ y ∷ xs) h l = absurd (omega arith)
Ladder-Done k (suc c) (x ∷ xs) h l = (h.0, h.1, Ladder-Done (suc k) c xs h.2 (omega arith))

-- Once the top is settled, the record below it is the new top.
pub Ladder-down :
    (s : ActionStatus) (k c : ℕ) (xs : List ActionRecord)
    → IsSettled s
    → Ladder s k (suc c) xs
    → Ladder ActionStatus.succeeded k c xs
Ladder-down s k c [] ne h = absurd h
Ladder-down s k zero (x ∷ []) ne h = absurd h.2
Ladder-down s k zero (x ∷ y ∷ xs) ne h = (h.0, h.1, (h.2.0, subst IsSettled (sym h.2.1) ne, h.2.2))
Ladder-down s k (suc c) (x ∷ xs) ne h = (h.0, h.1, Ladder-down s (suc k) c xs ne h.2)

-- With nothing below the top, no success is left.
pub Ladder-Undone :
    (s : ActionStatus) (k : ℕ) (xs : List ActionRecord)
    → IsSettled s
    → Ladder s k zero xs
    → Undone k xs
Ladder-Undone s k [] ne h = absurd h
Ladder-Undone s k (x ∷ xs) ne h = (h.0, subst IsSettled (sym h.1) ne, h.2)

Ladder-get :
    (k c : ℕ) (xs : List ActionRecord)
    → Ladder ActionStatus.succeeded k c xs
    → (r : ActionRecord) × (get_elem? xs c ≡ some r) × (r.status ≡ ActionStatus.succeeded)
Ladder-get k c [] h = absurd h
Ladder-get k zero (x ∷ xs) h = (x, refl, h.1)
Ladder-get k (suc c) (x ∷ xs) h = Ladder-get (suc k) c xs h.2

-- The search downwards finds the record right below the top.
pub last_succeeded_of_Ladder :
    (k c : ℕ) (xs : List ActionRecord)
    → Ladder ActionStatus.succeeded k c xs
    → last_succeeded_before xs (suc c) ≡ some c
unfolding last_succeeded_before
last_succeeded_of_Ladder k c xs h =
    let (r, g, e) = Ladder-get k c xs h in rw (g, e, last_succeeded_before)

pub length-put :
    (k : ℕ) (xs : List ActionRecord) (i : ℕ) (r : ActionRecord)
    → i < length xs
    → length (put_at k xs i r) ≡ length xs
unfolding put_at
length-put k [] i r h = absurd (omega arith)
length-put k (x ∷ xs) zero r h = refl
length-put k (x ∷ xs) (suc i) r h = ap suc (length-put (suc k) xs i r (omega arith))

pub length-put_end :
    (k : ℕ) (xs : List ActionRecord) (r : ActionRecord)
    → length (put_at k xs (length xs) r) ≡ suc (length xs)
unfolding put_at
length-put_end k [] r = refl
length-put_end k (x ∷ xs) r = ap suc (length-put_end (suc k) xs r)

pub Ladder-lt-length :
    (s : ActionStatus) (k c : ℕ) (xs : List ActionRecord) → Ladder s k c xs → c < length xs
Ladder-lt-length s k c [] h = absurd h
Ladder-lt-length s k zero (x ∷ xs) h = omega arith
Ladder-lt-length s k (suc c) (x ∷ xs) h = omega (arith, Ladder-lt-length s (suc k) c xs h.2)

-- No settled record waits for its compensation.
not_stuck : (s : ActionStatus) → IsSettled s → is_stuck s ≢ true
not_stuck s h e = ground arith

Undone-stuck :
    (name : String) (k i : ℕ) (xs : List ActionRecord) (r : ActionRecord)
    → Undone k xs
    → find_action name k xs ≡ some (i, r)
    → is_stuck r.status ≢ true
unfolding find_action
Undone-stuck name k i [] r h g e = cc
Undone-stuck name k i (x ∷ xs) r h g e = ground (arith, Undone-stuck name (suc k) i xs r h.2)

-- The only record that waits for its compensation is the one on top, whatever its name.
pub Ladder-stuck :
    (name : String) (s : ActionStatus) (k c i : ℕ) (xs : List ActionRecord) (r : ActionRecord)
    → Ladder s k c xs
    → find_action name k xs ≡ some (i, r)
    → is_stuck r.status ≡ true
    → (i ≡ k + c) × (r.index ≡ i)
unfolding find_action
Ladder-stuck name s k c i [] r h g e = absurd h
Ladder-stuck name s k zero i (x ∷ xs) r h g e = ground (arith, Undone-stuck name (suc k) i xs r h.2)
Ladder-stuck name s k (suc c) i (x ∷ xs) r h g e =
    ground (arith, Ladder-stuck name s (suc k) c i xs r h.2)
