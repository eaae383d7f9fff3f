-- ===== src/Commerce/Inventory/Store/Transition.antt =====
-- `TransitionOrder` of templates/commerce/internal/inventory/store.go, without its result `changed`,
-- which the service does not read.
use jiade.Prelude.{
  ℕ, String, Bool, true, false, not, ◌&&◌, ◌||◌, ◌==◌, ltb, Option, none, some, List, [], ◌∷◌, ◌++◌,
  str_eq, if◌then◌else◌,
}
use jiade.Prelude.Int.{ℤ, pos, ◌-ℤ◌}
use jiade.Commerce.Inventory.Model.{
  Level, active, ReservationEvent, commit, release, expire, Reservation, eq_state, release_stock,
  expire_stock, commit_stock,
}
use jiade.Commerce.Inventory.Store.Rows.{
  order_terminal, invalid_command, failed, Outcome, ok, err, LevelRow, ReservationAllocation,
  Tables, Names, find_level, update_level, allocations_of_order, terminal_order_state, set_state,
  active_with_id, ◌>>=◌, insert_movement,
}
use jiade.Commerce.Inventory.Store.Reserve.{checked}

abbrev pub eq_event : ReservationEvent → ReservationEvent → Bool
eq_event commit commit = true
eq_event release release = true
eq_event expire expire = true
eq_event (ReservationEvent.other s) (ReservationEvent.other t) = str_eq s t
eq_event _ _ = false

abbrev pub event_name : ReservationEvent → String
event_name commit = "commit"
event_name release = "release"
event_name expire = "expire"
event_name (ReservationEvent.other s) = s

-- `panic` does not happen: `Service.TransitionOrder` lets only the three events pass.
abbrev pub inventory_event_type : ReservationEvent → String
inventory_event_type release = "inventory.released.v1"
inventory_event_type commit = "inventory.committed.v1"
inventory_event_type expire = "inventory.expired.v1"
inventory_event_type (ReservationEvent.other s) = ""

unfoldable pub can_apply_terminal_fence : List ReservationAllocation → ReservationEvent → ℕ → Bool
can_apply_terminal_fence [] event now = true
can_apply_terminal_fence (a ∷ rest) event now =
    not (eq_event event expire)
    || (not (eq_state a.state active && ltb now a.expires_at)
        && can_apply_terminal_fence rest event now)

unfoldable pub apply_reservation_transition :
    Level → Reservation → ReservationEvent → Outcome (Level × Reservation)
unfolding release_stock commit_stock expire_stock
apply_reservation_transition level r event = elim event [
  | release ↦ let (next, r', e) = release_stock level r in checked (next, r') e
  | commit ↦ let (next, r', e) = commit_stock level r in checked (next, r') e
  | expire ↦ let (next, r', e) = expire_stock level r in checked (next, r') e
  | ReservationEvent.other s ↦ err invalid_command
]

abbrev pub reservation_of_allocation : ReservationAllocation → Reservation
reservation_of_allocation a = record {
  id = a.id;
  order_id = a.order_id;
  sku = a.sku;
  location_id = a.location_id;
  idempotency_key = "";
  quantity = a.quantity;
  state = a.state;
  expires_at = a.expires_at;
}

-- The movements of an event, for the reservation after it.
unfoldable pub insert_movements :
    Names → Reservation → ℤ → ReservationEvent → Tables → Outcome Tables
unfolding insert_movement
insert_movements names r quantity event t =
    if eq_event event commit
    then (insert_movement names r quantity "adjustment" "commit_release" t
        >>= (λ t'. insert_movement names r (pos 0 -ℤ quantity) "sale" "commit" t'))
    else insert_movement names r quantity "adjustment" (event_name event) t

-- The writes of a round, where the reservation was active still.
unfoldable pub settle_row :
    Names
    → ReservationAllocation
    → ReservationEvent
    → Level
    → Reservation
    → Tables
    → Outcome (Tables × ReservationAllocation)
unfolding set_state active_with_id update_level insert_movements
settle_row names a event next r t =
    if not (active_with_id r.id t.reservations == 1)
    then ok (record t { reservations = set_state r.state r.id t.reservations }, a)
    else insert_movements names r a.quantity event (record t {
      reservations = set_state r.state r.id t.reservations;
      levels = update_level a.sku a.location_id next t.levels;
    })
      >>= λ t'. ok (t', record a { state = r.state })

abbrev pub found_level : Option LevelRow → Outcome Level
found_level none = err failed
found_level (some row) = ok row.level

abbrev pub is_due : ReservationAllocation → ReservationEvent → ℕ → Bool
is_due a event now = eq_state a.state active && not (eq_event event expire && ltb now a.expires_at)

-- A round of the loop.
unfoldable pub settle_allocation :
    Names
    → ReservationEvent
    → ℕ
    → ReservationAllocation
    → Tables
    → Outcome (Tables × ReservationAllocation)
unfolding find_level apply_reservation_transition settle_row
settle_allocation names event now a t =
    if not (is_due a event now)
    then ok (t, a)
    else found_level (find_level a.sku a.location_id t.levels) >>= λ level.
        apply_reservation_transition level (reservation_of_allocation a) event >>= λ moved.
        settle_row names a event moved.0 moved.1 t

unfoldable pub settle_all :
    Names
    → ReservationEvent
    → ℕ
    → List ReservationAllocation
    → Tables
    → Outcome (Tables × List ReservationAllocation)
settle_all names event now [] t = ok (t, [])
settle_all names event now (a ∷ rest) t = elim (settle_allocation names event now a t) [
  | err e ↦ err e
  | ok (t', a') ↦ settle_all names event now rest t' >>= λ done. ok (done.0, a' ∷ done.1)
]

unfoldable pub settle_order :
    Names
    → String
    → ReservationEvent
    → ℕ
    → List ReservationAllocation
    → Tables
    → Outcome (Tables × List ReservationAllocation)
settle_order names order event now allocations t =
    settle_all names event now allocations (record t { terminal = (order, event) ∷ t.terminal })
    >>= λ done. ok (
      record done.0 {
        outbox =
            done.0.outbox
            ++ record {
              event_type = inventory_event_type event;
              order_id = order;
              correlation_id = order;
              allocations = done.1;
            }
              ∷ [];
      },
      done.1,
    )

-- The allocations of an order that is closed already.
abbrev pub closed_order :
    ReservationEvent
    → ReservationEvent
    → Tables
    → List ReservationAllocation
    → Outcome (Tables × List ReservationAllocation)
closed_order terminal event t allocations =
    if eq_event terminal event then ok (t, allocations) else err order_terminal

unfoldable pub transition_order :
    Names → String → ReservationEvent → ℕ → Tables → Outcome (Tables × List ReservationAllocation)
unfolding terminal_order_state allocations_of_order
transition_order names order event now t =
    let allocations = allocations_of_order order t.reservations in
    elim (terminal_order_state order t.terminal) [
      | some terminal ↦ closed_order terminal event t allocations
      | none ↦
          if can_apply_terminal_fence allocations event now
          then settle_order names order event now allocations t
          else ok (t, allocations)
    ]
