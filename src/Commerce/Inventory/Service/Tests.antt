-- ===== src/Commerce/Inventory/Service/Tests.antt =====
-- Laws of templates/commerce/internal/inventory/service.go and store.go at concrete tables.
use jiade.Prelude.{◌≡◌, refl, String, false, some, List, [], ◌∷◌, Bool-cases, inl, inr, arith, All}
use jiade.Prelude.Int.{pos, ◌+ℤ◌, ◌-ℤ◌}
use jiade.Prelude.Int64.{wrap64}
use jiade.Commerce.Inventory.Model.{commit, release, expire, available, reserve, new_reservation}
use jiade.Commerce.Inventory.Store.Rows.{
  order_terminal, Outcome, ok, err, LevelRow, Tables, is_at, find_level, existing_allocations,
  terminal_order_state,
}
use jiade.Commerce.Inventory.Store.Reserve.{
  ReservationResult, visit_candidate, visit_candidates, reserve_line, reserve_lines, total_of,
  has_sku, count_skus, all_of_order, all_totals_match, allocations_match_command, reserve_anew,
  reserve_order,
}
use jiade.Commerce.Inventory.Service.{service_reserve}
use jiade.Commerce.Inventory.Service.History.{
  Call, reserve_call, transition_call, answer_all, answer_all-IsConsistent,
}
use jiade.Commerce.Inventory.Levels.{IsValid}
use jiade.Commerce.Inventory.Store.Transition.{transition_order}
use jiade.Commerce.Inventory.Store.Places.{Distinct}
use jiade.Commerce.Inventory.Store.Facts.{held, NoneActive}
use jiade.Commerce.Inventory.Store.Filled.{amount_of}
use jiade.Commerce.Inventory.Store.Kept.{IsConsistent}
use jiade.Commerce.Inventory.Service.Quantities.{AllInt64, asked}
use jiade.Commerce.Inventory.Service.Served.{reserve_gives}
use jiade.Commerce.Inventory.Service.Ended.{ended_stays}
use jiade.Commerce.Inventory.Store.Reserve.{
  ReservationResult, visit_candidate, visit_candidates, reserve_line, reserve_lines, total_of,
  has_sku, count_skus, all_of_order, all_totals_match, allocations_match_command, reserve_anew,
  reserve_order,
}
use jiade.Commerce.Inventory.Service.Runs.{names, texts, stocked, first_order, final, sold}

-- Levels that hold nothing.
abbrev AllUnreserved : List LevelRow → Type 0
AllUnreserved rows = All (λ r. IsValid r.level × (r.level.reserved ≡ pos 0)) rows

unreserved_found :
    (s l : String) (rows : List LevelRow) (found : LevelRow)
    → AllUnreserved rows
    → find_level s l rows ≡ some found
    → IsValid found.level × (found.level.reserved ≡ pos 0)
unfolding find_level
unreserved_found s l [] found h e = absurd (cc)
unreserved_found s l (r ∷ rest) found h e = elim (Bool-cases (is_at s l r)) [
  | inl z ↦
      let same : some r ≡ some found = rw z at e in
      let same_row : r ≡ found = cc in rw (← same_row) (h.0)
  | inr z ↦ unreserved_found s l rest found (h.1) (rw z at e)
]

unreserved-IsConsistent :
    (t : Tables) → AllUnreserved t.levels → Distinct t.levels → t.reservations ≡ [] → IsConsistent t
unfolding held
unreserved-IsConsistent t h d e = record {
  sound = record {
    levels_valid = λ s l r found. (unreserved_found s l t.levels r h found).0;
    levels_held = λ s l r found. rw e ((unreserved_found s l t.levels r h found).1);
    ids = rw e tt;
  };
  distinct = d;
}

unreserved : AllUnreserved stocked.levels
unreserved = ((omega arith, refl), ((omega arith, refl), ((omega arith, refl), tt)))

stocked-IsConsistent : IsConsistent stocked
stocked-IsConsistent =
    unreserved-IsConsistent stocked unreserved ((refl, (refl, tt)), ((refl, tt), (tt, tt))) refl

abbrev reply : Outcome (Tables × ReservationResult) → Tables × ReservationResult
reply (ok done) = done
reply (err e) = (stocked, record { order_id = ""; allocations = []; existing = false })

abbrev served : Tables × ReservationResult
served = reply (service_reserve texts names 7 first_order stocked)

first_order-AllInt64 : AllInt64 first_order.lines
first_order-AllInt64 = (omega arith, (omega arith, (omega arith, tt)))

served_ok : service_reserve texts names 7 first_order stocked ≡ ok (served.0, served.1)
unfolding service_reserve terminal_order_state existing_allocations allocations_match_command
    reserve_anew reserve_lines reserve_line visit_candidates visit_candidate available
    new_reservation reserve wrap64 ◌+ℤ◌ ◌-ℤ◌
served_ok = refl

served_new : served.1.existing ≡ false
unfolding service_reserve terminal_order_state existing_allocations allocations_match_command
    reserve_anew reserve_lines reserve_line visit_candidates visit_candidate available
    new_reservation reserve wrap64 ◌+ℤ◌ ◌-ℤ◌
served_new = refl

reserve_gives_example : amount_of "s1" served.1.allocations ≡ asked texts "s1" first_order.lines
reserve_gives_example =
    reserve_gives texts names 7 first_order served.1 stocked served.0 stocked-IsConsistent
      first_order-AllInt64 served_ok served_new "s1"

answer_all-IsConsistent_example : IsConsistent (answer_all texts names sold stocked)
answer_all-IsConsistent_example =
    answer_all-IsConsistent texts names sold stocked stocked-IsConsistent
      (first_order-AllInt64, (tt, tt))

abbrev closed : Tables
closed = record stocked { terminal = ("o1", commit) ∷ [] }

closed-IsConsistent : IsConsistent closed
closed-IsConsistent =
    unreserved-IsConsistent closed unreserved ((refl, (refl, tt)), ((refl, tt), (tt, tt))) refl

closed_terminal : terminal_order_state "o1" closed.terminal ≡ some commit
unfolding terminal_order_state
closed_terminal = refl

abbrev late_calls : List Call
late_calls = reserve_call 9 first_order ∷ transition_call 8 "o1" release ∷ []

no_reservations :
    existing_allocations names
      (names.key_prefix first_order.idempotency_key)
      (answer_all texts names late_calls closed).reservations
    ≡ []
unfolding final answer_all terminal_order_state existing_allocations all_of_order count_skus has_sku
    all_totals_match total_of allocations_match_command reserve_anew reserve_lines reserve_line
    wrap64 ◌+ℤ◌ ◌-ℤ◌
no_reservations = refl

ended_stays_example :
    (terminal_order_state "o1" (answer_all texts names late_calls closed).terminal ≡ some commit)
    × NoneActive "o1" (answer_all texts names late_calls closed).reservations
    × (transition_order names "o1" expire 9 (answer_all texts names late_calls closed)
        ≡ err order_terminal)
    × (reserve_order names first_order (answer_all texts names late_calls closed)
        ≡ err order_terminal)
ended_stays_example =
    ended_stays texts names late_calls first_order commit expire 9 closed closed-IsConsistent
      (λ o x k. tt) (first_order-AllInt64, (tt, tt)) closed_terminal no_reservations
