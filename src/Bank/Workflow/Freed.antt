-- ===== src/Bank/Workflow/Freed.antt =====
-- What a sweep of the recovery loop leaves of the leases that it takes:
-- templates/bank/internal/platform/workflow/recovery.go.
use jiade.Prelude.{◌≡◌, ◌⊎◌, String, Bool, true, false, ◌||◌, some, List, [], ◌∷◌, str_eq}
use jiade.Bank.Workflow.Types.{Instance}
use jiade.Bank.Workflow.Tx.{Tx}
use jiade.Bank.Workflow.Engine.{Engine}
use jiade.Bank.Workflow.Store.{Store, find_row}

abbrev listed : String → List String → Bool
listed k [] = false
listed k (id ∷ rest) = str_eq id k || listed k rest

-- The row with a key is not the owner's, or it is still to be processed.
abbrev IsLeft : String → String → List String → Store → Type 0
IsLeft owner k ids s =
    (j : Instance)
    → find_row k s.rows ≡ some j
    → (str_eq j.lease_owner owner ≡ false) ⊎ (listed k ids ≡ true)
