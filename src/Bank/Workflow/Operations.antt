-- ===== src/Bank/Workflow/Operations.antt =====
-- The operations of the engine on the store: `Start`, `Prepare`, `Redispatch` and `ApplyResult` of
-- templates/bank/internal/platform/workflow/engine.go, `RetryCompensation` and
-- `ResolveCompensation` of admin_ops.go.
use jiade.Prelude.{String, none, some}
use jiade.Bank.Workflow.Types.{StartRequest, Instance, Envelope, definition_not_found}
use jiade.Bank.Workflow.Tx.{Result, ok, err, instance_now}
use jiade.Bank.Workflow.Registry.{get}
use jiade.Bank.Workflow.Engine.{Engine}
use jiade.Bank.Workflow.Results.{apply_result_tx}
use jiade.Bank.Workflow.Resume.{prepare_tx, redispatch_tx}
use jiade.Bank.Workflow.Admin.{retry_compensation_tx, resolve_compensation_tx}
use jiade.Bank.Workflow.Store.{Store, create, with_instance}

module _ (e : Engine) where
  -- `Start`
  unfoldable pub start : StartRequest → Store → Result Instance × Store
  unfolding get create
  start req s = elim (get e.registry req.typ req.version) [
    | none ↦ (err definition_not_found, s)
    | some def ↦ create req s
  ]

  -- The second transaction of `Prepare`, by what the first one has read.
  unfoldable pub prepare_from : String → Result Instance × Store → Result (Unit {0}) × Store
  unfolding with_instance prepare_tx
  prepare_from id (err x, s) = (err x, s)
  prepare_from id (ok header, s) = with_instance id (prepare_tx e header) s

  -- `Prepare`
  unfoldable pub prepare : String → Store → Result (Unit {0}) × Store
  unfolding with_instance instance_now prepare_from
  prepare id s = prepare_from id (with_instance id instance_now s)

  -- `Redispatch`
  unfoldable pub redispatch : String → Store → Result (Unit {0}) × Store
  unfolding with_instance redispatch_tx
  redispatch id s = with_instance id (redispatch_tx e) s

  -- `ApplyResult`
  unfoldable pub apply_result : Envelope → Store → Result (Unit {0}) × Store
  unfolding with_instance apply_result_tx
  apply_result env s = with_instance env.workflow_id (apply_result_tx e env) s

  -- `RetryCompensation`
  unfoldable pub retry_compensation : String → Store → Result (Unit {0}) × Store
  unfolding with_instance retry_compensation_tx
  retry_compensation id s = with_instance id (retry_compensation_tx e) s

  -- `ResolveCompensation`
  unfoldable pub resolve_compensation : String → String → Store → Result (Unit {0}) × Store
  unfolding with_instance resolve_compensation_tx
  resolve_compensation id name s = with_instance id (resolve_compensation_tx e name) s
