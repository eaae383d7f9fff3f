-- ===== src/Bank/Workflow/Store.antt =====
-- The tables of the store and its transactions:
-- templates/bank/internal/platform/workflow/postgres.go. A column that is NULL is an empty text or
-- the time 0, as the scans read it. Rows stand in the order they were created; the database
-- itself fails no statement. The guard on the revision always holds, since the row is locked.
use jiade.Prelude.{
  ℕ, zero, suc, ◌+◌, String, Bool, true, false, not, ◌&&◌, ◌||◌, ◌==◌, Option, none, some, List, [],
  ◌∷◌, get_elem?, str_eq, ltb, leb, if◌then◌else◌,
}
use jiade.Prelude.Int.{ℤ}
use jiade.Bank.Workflow.Types.{
  no_class, StartRequest, Instance, InstanceStatus, preparing, running, rejected, ActionStatus,
  waiting_result, Envelope, instance_exists, instance_not_found, lease_not_held, eq_action_status,
  eq_instance_status,
}
use jiade.Bank.Workflow.Tx.{Tx, M, Result, ok, err}

pub record Store : Type 0 where
  pub rows : List Instance
  pub inbox : List (String × String)
  pub outbox : List (Envelope × String)
  pub readings : ℕ
  pub ids : ℕ

unfoldable pub find_row : String → List Instance → Option Instance
find_row id [] = none
find_row id (i ∷ rest) = if str_eq i.id id then some i else find_row id rest

-- An update of the row with an id, which is its key.
unfoldable pub update_row : String → (Instance → Instance) → List Instance → List Instance
update_row id f [] = []
update_row id f (i ∷ rest) =
    let later = update_row id f rest in if str_eq i.id id then f i ∷ rest else i ∷ later

-- The row that `CreateInTx` inserts.
unfoldable pub new_row : StartRequest → Instance
new_row req = record {
  id = req.workflow_id;
  typ = req.typ;
  version = req.version;
  status = preparing;
  input = if str_eq req.input "" then "{}" else req.input;
  prepared_context = "";
  current_action = 0;
  revision = 0;
  lease_owner = "";
  lease_until = 0;
  next_wakeup_at = 0;
  operational_deadline = 0;
  last_error_class = no_class;
  last_error = "";
  actions = [];
  correlation_id = req.correlation_id;
}

-- `Create`
unfoldable pub create : StartRequest → Store → Result Instance × Store
unfolding find_row new_row
create req s = elim (find_row req.workflow_id s.rows) [
  | some i ↦ (err instance_exists, s)
  | none ↦ (ok (new_row req), record s { rows = new_row req ∷ s.rows })
]

-- A transaction on a row that was locked, and what is committed of it.
abbrev pub open_tx : Instance → Store → Tx
open_tx i s = record {
  inst = i;
  inbox = s.inbox;
  outbox = s.outbox;
  readings = s.readings;
  ids = s.ids;
}

unfoldable pub commit : {A : Type 0} → String → Result A × Tx → Store → Result A × Store
unfolding update_row
commit id (err x, t) s = (err x, record s { readings = t.readings; ids = t.ids })
commit id (ok a, t) s = (
  ok a,
  record {
    rows = update_row id (λ i. t.inst) s.rows;
    inbox = t.inbox;
    outbox = t.outbox;
    readings = t.readings;
    ids = t.ids;
  },
)

-- `WithInstance`
unfoldable pub with_instance : {A : Type 0} → String → M A → Store → Result A × Store
unfolding find_row commit
with_instance id m s = elim (find_row id s.rows) [
  | none ↦ (err instance_not_found, s)
  | some i ↦ commit id (m (open_tx i s)) s
]

abbrev pub is_terminal : InstanceStatus → Bool
is_terminal InstanceStatus.succeeded = true
is_terminal rejected = true
is_terminal InstanceStatus.compensated = true
is_terminal InstanceStatus.compensation_failed = true
is_terminal _ = false

-- The current action waits in a status and its deadline is over.
unfoldable pub is_late : ℕ → ActionStatus → Instance → Bool
is_late now status i = elim (get_elem? i.actions i.current_action) [
  | none ↦ false
  | some r ↦ eq_action_status r.status status && (not (r.deadline_at == 0) && ltb r.deadline_at now)
]

unfoldable pub is_runnable : ℕ → Instance → InstanceStatus → Bool
unfolding is_late
is_runnable now i preparing = true
is_runnable now i running = is_late now waiting_result i
is_runnable now i InstanceStatus.compensating = is_late now ActionStatus.compensating i
is_runnable now i _ = false

unfoldable pub is_lease_free : ℕ → Instance → Bool
is_lease_free now i = str_eq i.lease_owner "" || leb i.lease_until now

unfoldable pub is_claimable : ℕ → Instance → Bool
unfolding is_runnable is_lease_free
is_claimable now i =
    not (is_terminal i.status) && (is_lease_free now i && is_runnable now i i.status)

abbrev pub leased : String → ℕ → Instance → Instance
leased owner until i = record i {
  lease_owner = owner;
  lease_until = until;
  revision = suc i.revision;
}

unfoldable pub claim_rows : String → ℕ → ℕ → ℕ → List Instance → List String × List Instance
unfolding is_claimable
claim_rows owner now until limit [] = ([], [])
claim_rows owner now until zero (i ∷ rest) = ([], i ∷ rest)
claim_rows owner now until (suc limit) (i ∷ rest) =
    let taken = claim_rows owner now until limit rest in
    let passed = claim_rows owner now until (suc limit) rest in
    if is_claimable now i
    then (i.id ∷ taken.0, leased owner until i ∷ taken.1)
    else (passed.0, i ∷ passed.1)

-- `ClaimRunnable`, for a lease in the future.
unfoldable pub claim_runnable : String → ℕ → ℕ → ℕ → Store → List String × Store
unfolding claim_rows
claim_runnable owner now lease limit s =
    let claimed = claim_rows owner now (now + lease) limit s.rows in
    (claimed.0, record s { rows = claimed.1 })

-- `RenewLease`
unfoldable pub renew_lease : String → String → ℕ → ℕ → Store → Result (Unit {0}) × Store
unfolding find_row update_row
renew_lease id owner now lease s = elim (find_row id s.rows) [
  | none ↦ (err instance_not_found, s)
  | some i ↦
      if not (str_eq i.lease_owner "") && str_eq i.lease_owner owner
      then (
        ok tt,
        record s { rows = update_row id (λ j. leased j.lease_owner (now + lease) j) s.rows },
      )
      else (err lease_not_held, s)
]

abbrev pub released : String → Instance → Instance
released owner i =
    if not (str_eq i.lease_owner "") && str_eq i.lease_owner owner
    then record i { lease_owner = ""; lease_until = 0; revision = suc i.revision }
    else i

-- `ReleaseLease`
unfoldable pub release_lease : String → String → Store → Store
unfolding update_row
release_lease id owner s = record s { rows = update_row id (released owner) s.rows }

unfoldable pub waits_late : ℕ → Instance → Bool
unfolding is_late
waits_late now i =
    (eq_instance_status i.status running || eq_instance_status i.status InstanceStatus.compensating)
    && (is_late now waiting_result i || is_late now ActionStatus.compensating i)

-- `TimedOut`
unfoldable pub timed_out : ℕ → ℕ → List Instance → List String
unfolding waits_late
timed_out now limit [] = []
timed_out now zero (i ∷ rest) = []
timed_out now (suc limit) (i ∷ rest) =
    let taken = timed_out now limit rest in
    let passed = timed_out now (suc limit) rest in if waits_late now i then i.id ∷ taken else passed

-- `NonTerminalDefinitions`, without its order; a pair may stand twice.
unfoldable pub non_terminal_definitions : List Instance → List (String × ℤ)
non_terminal_definitions [] = []
non_terminal_definitions (i ∷ rest) =
    let later = non_terminal_definitions rest in
    if is_terminal i.status then later else (i.typ, i.version) ∷ later
