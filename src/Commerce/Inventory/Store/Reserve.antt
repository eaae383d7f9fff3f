-- ===== src/Commerce/Inventory/Store/Reserve.antt =====
-- `Reserve` of templates/commerce/internal/inventory/store.go. The locks make each transaction one
-- step; times are numbers and are taken as UTC.
use jiade.Prelude.{
  ℕ, suc, ◌+◌, String, Bool, true, false, not, ◌&&◌, ◌||◌, ◌==◌, ltb, Option, none, some, List, [],
  ◌∷◌, ◌++◌, length, str_eq, if◌then◌else◌,
}
use jiade.Prelude.Int.{ℤ, pos, ◌-ℤ◌, ltb_ℤ, eqb_ℤ}
use jiade.Prelude.Int64.{add64, sub64}
use jiade.Commerce.Inventory.Model.{
  Error, ReservationEvent, Reservation, available, reserve, new_reservation,
}
use jiade.Commerce.Inventory.Store.Rows.{
  sku_not_found, insufficient_stock, idempotency_conflict, order_terminal, stock, Outcome, ok, err,
  LevelRow, ReservationAllocation, Tables, Names, candidate_levels, update_reserved,
  allocation_from_reservation, existing_allocations, clashes, terminal_order_state, ◌>>=◌,
  insert_movement,
}

pub record ReserveLine : Type 0 where
  pub sku : String
  pub quantity : ℤ

pub record ReserveCommand : Type 0 where
  pub order_id : String
  pub idempotency_key : String
  pub correlation_id : String
  pub lines : List ReserveLine
  pub expires_at : ℕ

pub record ReservationResult : Type 0 where
  pub order_id : String
  pub allocations : List ReservationAllocation
  pub existing : Bool

-- The variables of the loops over lines and candidates.
pub record Filling : Type 0 where
  pub tables : Tables
  pub remaining : ℤ
  pub allocation_index : ℕ
  pub allocations : List ReservationAllocation

abbrev pub checked : {A : Type 0} → A → Option Error → Outcome A
checked a none = ok a
checked a (some e) = err (stock e)

-- The row that `reserveAtLevel` inserts, with the movement.
unfoldable pub insert_reservation : Names → Reservation → Tables → Outcome Tables
unfolding clashes insert_movement
insert_reservation names r t =
    if clashes r t.reservations
    then err idempotency_conflict
    else insert_movement names r (pos 0 -ℤ r.quantity) "adjustment" "reserve"
        (record t { reservations = r ∷ t.reservations })

-- `reserveAtLevel` from `Level.Reserve` on.
unfoldable pub place_at :
    Names → String → LevelRow → Reservation → Tables → Outcome (Tables × ReservationAllocation)
unfolding update_reserved insert_reservation allocation_from_reservation
place_at names sku candidate r t = do
  level ← checked (reserve candidate.level r).0 (reserve candidate.level r).2
  t' ←
      insert_reservation names r
        (record t { levels = update_reserved sku candidate.location_id level.reserved t.levels })
  ok (t', allocation_from_reservation r)

-- The reservation that `reserveAtLevel` makes.
abbrev pub made_reservation :
    Names → ReserveCommand → String → LevelRow → ℤ → ℕ → Reservation × Option Error
made_reservation names command sku candidate quantity index =
    new_reservation
      (names.reservation_id command.idempotency_key command.order_id sku candidate.location_id
        index)
      command.order_id sku candidate.location_id
      (names.numbered_key (names.key_prefix command.idempotency_key) index) quantity
      command.expires_at

unfoldable pub reserve_at_level :
    Names
    → ReserveCommand
    → String
    → LevelRow
    → ℤ
    → ℕ
    → Tables
    → Outcome (Tables × ReservationAllocation)
unfolding place_at
reserve_at_level names command sku candidate quantity index t =
    checked (made_reservation names command sku candidate quantity index).0
      (made_reservation names command sku candidate quantity index).1
    >>= λ r. place_at names sku candidate r t

abbrev pub least : ℤ → ℤ → ℤ
least a b = if ltb_ℤ b a then b else a

-- The variables after an allocation.
abbrev pub filled : Filling → ℤ → Tables × ReservationAllocation → Filling
filled f quantity done = record {
  tables = done.0;
  remaining = sub64 f.remaining quantity;
  allocation_index = f.allocation_index + 1;
  allocations = f.allocations ++ done.1 ∷ [];
}

-- The part of the loop over candidates that allocates; the test says whether the loop is left.
unfoldable pub allocate_at :
    Names → ReserveCommand → String → LevelRow → ℤ → Filling → Outcome (Filling × Bool)
unfolding reserve_at_level
allocate_at names command sku candidate free f =
    reserve_at_level names command sku candidate (least f.remaining free) (f.allocation_index + 1)
      f.tables
    >>= λ done. ok (
      filled f (least f.remaining free) done,
      eqb_ℤ (sub64 f.remaining (least f.remaining free)) (pos 0),
    )

unfoldable pub visit_candidate :
    Names → ReserveCommand → String → LevelRow → Filling → Outcome (Filling × Bool)
unfolding allocate_at
visit_candidate names command sku candidate f =
    if not candidate.fulfills
    then ok (f, false)
    else (checked (available candidate.level).0 (available candidate.level).1 >>= λ free.
        if eqb_ℤ free (pos 0)
        then ok (f, false)
        else allocate_at names command sku candidate free f)

unfoldable pub visit_candidates :
    Names → ReserveCommand → String → List LevelRow → Filling → Outcome Filling
visit_candidates names command sku [] f = ok f
visit_candidates names command sku (c ∷ cs) f = elim (visit_candidate names command sku c f) [
  | err e ↦ err e
  | ok (f', true) ↦ ok f'
  | ok (f', false) ↦ visit_candidates names command sku cs f'
]

unfoldable pub reserve_line : Names → ReserveCommand → ReserveLine → Filling → Outcome Filling
unfolding candidate_levels
reserve_line names command line f =
    let levels = candidate_levels line.sku f.tables.levels in
    if length levels == 0
    then err sku_not_found
    else (visit_candidates names command line.sku levels (record f { remaining = line.quantity })
        >>= λ f'. if eqb_ℤ f'.remaining (pos 0) then ok f' else err insufficient_stock)

unfoldable pub reserve_lines : Names → ReserveCommand → List ReserveLine → Filling → Outcome Filling
reserve_lines names command [] f = ok f
reserve_lines names command (line ∷ rest) f = elim (reserve_line names command line f) [
  | err e ↦ err e
  | ok f' ↦ reserve_lines names command rest f'
]

-- The map `totals` of `allocationsMatchCommand`, at one SKU.
unfoldable pub total_of : String → List ReservationAllocation → ℤ
total_of sku [] = pos 0
total_of sku (a ∷ rest) =
    let sum = total_of sku rest in if str_eq a.sku sku then add64 a.quantity sum else sum

unfoldable pub has_sku : String → List ReservationAllocation → Bool
has_sku sku [] = false
has_sku sku (a ∷ rest) = str_eq a.sku sku || has_sku sku rest

-- `len(totals)`
unfoldable pub count_skus : List ReservationAllocation → ℕ
count_skus [] = 0
count_skus (a ∷ rest) = let n = count_skus rest in if has_sku a.sku rest then n else suc n

unfoldable pub all_of_order : String → List ReservationAllocation → Bool
all_of_order order [] = true
all_of_order order (a ∷ rest) = str_eq a.order_id order && all_of_order order rest

unfoldable pub all_totals_match : List ReserveLine → List ReservationAllocation → Bool
all_totals_match [] allocations = true
all_totals_match (line ∷ rest) allocations =
    eqb_ℤ (total_of line.sku allocations) line.quantity && all_totals_match rest allocations

unfoldable pub allocations_match_command : List ReservationAllocation → ReserveCommand → Bool
allocations_match_command allocations command =
    ltb 0 (length allocations)
    && (all_of_order command.order_id allocations
        && (count_skus allocations == length command.lines
            && all_totals_match command.lines allocations))

-- The event and the result of the allocations that were made.
abbrev pub reserved_result : ReserveCommand → Filling → Tables × ReservationResult
reserved_result command f = (
  record f.tables {
    outbox =
        f.tables.outbox
        ++ record {
          event_type = "inventory.reserved.v1";
          order_id = command.order_id;
          correlation_id = command.correlation_id;
          allocations = f.allocations;
        }
          ∷ [];
  },
  record { order_id = command.order_id; allocations = f.allocations; existing = false },
)

unfoldable pub reserve_anew : Names → ReserveCommand → Tables → Outcome (Tables × ReservationResult)
reserve_anew names command t =
    reserve_lines names command command.lines
      (record { tables = t; remaining = pos 0; allocation_index = 0; allocations = [] })
    >>= λ f. ok (reserved_result command f)

abbrev pub is_open : Option ReservationEvent → Bool
is_open none = true
is_open (some e) = false

unfoldable pub reserve_order :
    Names → ReserveCommand → Tables → Outcome (Tables × ReservationResult)
reserve_order names command t =
    let existing =
      existing_allocations names (names.key_prefix command.idempotency_key) t.reservations in
    if ltb 0 (length existing)
    then if allocations_match_command existing command
      then ok (t, record { order_id = command.order_id; allocations = existing; existing = true })
      else err idempotency_conflict
    else if is_open (terminal_order_state command.order_id t.terminal)
    then reserve_anew names command t
    else err order_terminal
