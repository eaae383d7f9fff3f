-- ===== src/Bank/Workflow/Recovery.antt =====
-- The recovery loop: templates/bank/internal/platform/workflow/recovery.go. The ticker and the
-- cancellation of a context are left out: what is modelled is the audit and one sweep.
use jiade.Prelude.{ℕ, String, Option, none, some, List, [], ◌∷◌, if◌then◌else◌}
use jiade.Prelude.Int.{ℤ, pos, leb_ℤ, pos_part}
use jiade.Bank.Workflow.Types.{Error, definition_unavailable}
use jiade.Bank.Workflow.Tx.{Result, ok, err}
use jiade.Bank.Workflow.Registry.{Registry, get}
use jiade.Bank.Workflow.Engine.{Engine}
use jiade.Bank.Workflow.Store.{Store, claim_runnable, release_lease, non_terminal_definitions}
use jiade.Bank.Workflow.Operations.{prepare, redispatch}

pub record RecoveryConfig : Type 0 where
  pub owner : String
  pub lease : ℤ
  pub poll_interval : ℤ

-- The defaults of `NewRecovery`, in nanoseconds.
unfoldable pub new_recovery : RecoveryConfig → RecoveryConfig
new_recovery c = record c {
  lease = if leb_ℤ c.lease (pos 0) then pos 30000000000 else c.lease;
  poll_interval = if leb_ℤ c.poll_interval (pos 0) then pos 1000000000 else c.poll_interval;
}

abbrev pub claim_limit : ℕ
claim_limit = 100

-- `AuditDefinitions`
unfoldable pub audit_refs : Registry → List (String × ℤ) → Option Error
unfolding get
audit_refs registry [] = none
audit_refs registry ((typ, version) ∷ rest) =
    let later = audit_refs registry rest in
    elim (get registry typ version) [ none ↦ some definition_unavailable | some def ↦ later ]

unfoldable pub audit_definitions : Registry → Store → Option Error
unfolding audit_refs non_terminal_definitions
audit_definitions registry s = audit_refs registry (non_terminal_definitions s.rows)

module _ (e : Engine) where
  -- `processInstance`: whatever the two operations answer, the lease is released.
  abbrev pub after_prepare : String → Result (Unit {0}) × Store → Store
  after_prepare id (err x, s) = s
  after_prepare id (ok done, s) = (redispatch e id s).1

  unfoldable pub process_instance : String → String → Store → Store
  unfolding release_lease prepare redispatch
  process_instance owner id s = release_lease id owner (after_prepare id (prepare e id s))

  unfoldable pub process_all : String → List String → Store → Store
  unfolding process_instance
  process_all owner [] s = s
  process_all owner (id ∷ rest) s = process_all owner rest (process_instance owner id s)

  -- `runOnce`, at a time.
  unfoldable pub run_once : RecoveryConfig → ℕ → Store → Store
  unfolding claim_runnable process_all
  run_once c now s =
      let claimed = claim_runnable c.owner now (pos_part c.lease) claim_limit s in
      process_all c.owner claimed.0 claimed.1
