-- ===== src/Bank/Workflow/Rows.antt =====
-- What holds of every row still does after a row is rewritten, claimed or released:
-- templates/bank/internal/platform/workflow/postgres.go.
use mathlib.Core.Path.{subst}
use jiade.Prelude.{
  ℕ, zero, suc, ◌≡◌, ◌⊎◌, inl, inr, refl, String, not, ◌&&◌, Bool-cases, Option-cases, some, List,
  [], ◌∷◌, All, str_eq, arith,
}
use jiade.Bank.Workflow.Types.{Instance}
use jiade.Bank.Workflow.Tx.{Tx, M, Result, ok, err}
use jiade.Bank.Workflow.Registry.{Registry}
use jiade.Bank.Workflow.Store.{
  Store, find_row, update_row, open_tx, commit, with_instance, leased, released, claim_rows,
  is_claimable,
}
use jiade.Bank.Workflow.Ensures.{After, Ensures}
use jiade.Bank.Workflow.Invariant.{IsSound, Sound, SameIdentity, kept}
use jiade.Bank.Workflow.Transactions.{action_count}

-- A row is sound for the definition that it names.
abbrev pub IsSoundRow : Registry → Instance → Type 0
IsSoundRow registry i = IsSound (action_count registry i) i

-- Every row is sound.
abbrev pub AllSound : Registry → Store → Type 0
AllSound registry s = All (IsSoundRow registry) s.rows

sound_row :
    (registry : Registry) (i j : Instance)
    → SameIdentity i j
    → IsSound (action_count registry i) j
    → IsSoundRow registry j
sound_row registry i j same h = rw (same.same_typ, same.same_version) h

pub All-update :
    (P : Instance → Type 0) (id : String) (f : Instance → Instance) (xs : List Instance)
    → ((i : Instance) → P i → P (f i))
    → All P xs
    → All P (update_row id f xs)
unfolding update_row
All-update P id f [] keep h = tt
All-update P id f (x ∷ xs) keep h = elim (Bool-cases (str_eq x.id id)) [
  | inl own ↦ rw own (keep x h.0, h.1)
  | inr other ↦ rw other (h.0, All-update P id f xs keep h.1)
]

find_row_cases :
    (id : String) (x : Instance) (xs : List Instance) (i : Instance)
    → find_row id (x ∷ xs) ≡ some i
    → (x ≡ i) ⊎ (find_row id xs ≡ some i)
unfolding find_row
find_row_cases id x xs i g = ground arith

pub All-find :
    (P : Instance → Type 0) (id : String) (xs : List Instance) (i : Instance)
    → All P xs
    → find_row id xs ≡ some i
    → P i
unfolding find_row
All-find P id [] i h g = cc
All-find P id (x ∷ xs) i h g = elim (find_row_cases id x xs i g) [
  | inl same ↦ subst P same h.0
  | inr later ↦ All-find P id xs i h.1 later
]

-- A row written back as it was read.
pub update_row_same :
    (id : String) (xs : List Instance) (i : Instance)
    → find_row id xs ≡ some i
    → update_row id (λ j. i) xs ≡ xs
unfolding find_row update_row
update_row_same id [] i g = refl
update_row_same id (x ∷ xs) i g = ground (arith, update_row_same id xs i)

module _ (registry : Registry) (id : String) where
  commit-AllSound :
      (i : Instance) (r : Result (Unit {0}) × Tx) (s : Store)
      → After (Sound (action_count registry i) i) r
      → AllSound registry s
      → AllSound registry (commit id r s).1
  unfolding commit
  commit-AllSound i (ok a, t) s h sound =
      All-update (IsSoundRow registry) id _ s.rows (λ j p. sound_row registry i t.inst h.0 h.1)
        sound
  commit-AllSound i (err x, t) s h sound = sound

  -- A transaction that leaves the row it locks sound leaves every row sound.
  pub with_instance-AllSound :
      (m : M (Unit {0})) (s : Store)
      → AllSound registry s
      → ((i : Instance)
          → find_row id s.rows ≡ some i
          → IsSoundRow registry i
          → Ensures (Sound (action_count registry i) i) m (open_tx i s))
      → AllSound registry (with_instance id m s).1
  unfolding with_instance
  with_instance-AllSound m s sound keep = elim (Option-cases (find_row id s.rows)) [
    | inl missing ↦ rw (missing, with_instance) sound
    | inr (i, found) ↦
        rw (found, with_instance)
          (commit-AllSound i _ s
            (keep i found (All-find (IsSoundRow registry) id s.rows i sound found)).after sound)
  ]

pub claim_rows-All :
    (P : Instance → Type 0) (owner : String) (now until limit : ℕ) (xs : List Instance)
    → ((i : Instance) → P i → P (leased owner until i))
    → All P xs
    → All P (claim_rows owner now until limit xs).1
unfolding claim_rows
claim_rows-All P owner now until limit [] keep h = tt
claim_rows-All P owner now until zero (x ∷ xs) keep h = h
claim_rows-All P owner now until (suc limit) (x ∷ xs) keep h =
    elim (Bool-cases (is_claimable now x)) [
      | inl take ↦ rw take (keep x h.0, claim_rows-All P owner now until limit xs keep h.1)
      | inr skip ↦ rw skip (h.0, claim_rows-All P owner now until (suc limit) xs keep h.1)
    ]

pub released-IsSoundRow :
    (registry : Registry) (owner : String) (i : Instance)
    → IsSoundRow registry i
    → IsSoundRow registry (released owner i)
released-IsSoundRow registry owner i h =
    elim (Bool-cases (not (str_eq i.lease_owner "") && str_eq i.lease_owner owner)) [
      | inl held ↦ rw held h
      | inr other ↦ rw other h
    ]

pub same_row : (i j : Instance) → some i ≡ some j → SameIdentity i j
same_row i j q = let same : i ≡ j = cc in subst (SameIdentity i) same (kept refl refl refl)
