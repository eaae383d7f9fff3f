-- ===== src/Commerce/Inventory/Service/Runs.antt =====
-- Runs of templates/commerce/internal/inventory/service.go and store.go.
use jiade.Prelude.{
  map, ℕ, suc, zero, ◌≡◌, refl, String, true, ◌&&◌, List, [], ◌∷◌, str_eq, if◌then◌else◌,
}
use jiade.Prelude.Int.{ℤ, pos, ◌+ℤ◌, ◌-ℤ◌}
use jiade.Prelude.Int64.{wrap64}
use jiade.Commerce.Inventory.Model.{commit, expire, available, reserve, new_reservation}
use jiade.Commerce.Inventory.Store.Rows.{
  Outcome, ok, err, LevelRow, ReservationAllocation, Tables, Names, existing_allocations,
  terminal_order_state,
}
use jiade.Commerce.Inventory.Store.Reserve.{
  ReserveLine, ReserveCommand, ReservationResult, visit_candidate, visit_candidates, reserve_line,
  reserve_lines, total_of, has_sku, count_skus, all_of_order, all_totals_match,
  allocations_match_command, reserve_anew,
}
use jiade.Commerce.Inventory.Service.{Texts, service_reserve}
use jiade.Commerce.Inventory.Service.History.{Call, reserve_call, transition_call, answer_all}
use jiade.Commerce.Inventory.Store.Transition.{
  can_apply_terminal_fence, settle_allocation, settle_all, settle_order,
}
use jiade.Commerce.Inventory.Store.Reserve.{
  ReserveLine, ReserveCommand, ReservationResult, visit_candidate, visit_candidates, reserve_line,
  reserve_lines, total_of, has_sku, count_skus, all_of_order, all_totals_match,
  allocations_match_command, reserve_anew,
}
use Prim.Native.String.{◌++◌ as join}
use text.Mathlib.Text.{starts_with}

abbrev tally : ℕ → String
tally zero = ":"
tally (suc n) = join (tally n) "1"

abbrev pub names : Names
names = record {
  key_prefix = λ key. join "r1_" key;
  numbered_key = λ prefix n. join prefix (tally n);
  has_prefix = λ prefix key. starts_with key (join prefix ":");
  reservation_id =
      λ key order sku location n. join key (join order (join sku (join location (tally n))));
  movement_id = λ id action. join "MOV-" (join id action);
  reference_id = λ id action. join id (join ":" action);
}

abbrev pub texts : Texts
texts = record {
  trim = λ s. if str_eq s " s1" then "s1" else s;
  before = λ s s'. str_eq s "s1" && str_eq s' "s2";
}

abbrev row : String → String → ℕ → LevelRow
row s l n = record {
  sku = s;
  location_id = l;
  fulfills = true;
  level = record { on_hand = pos n; reserved = pos 0 };
}

abbrev pub stocked : Tables
stocked = record {
  levels = row "s1" "l1" 3 ∷ row "s2" "l1" 5 ∷ row "s1" "l2" 10 ∷ [];
  reservations = [];
  terminal = [];
  movements = [];
  outbox = [];
}

abbrev line : String → ℕ → ReserveLine
line s n = record { sku = s; quantity = pos n }

abbrev wants : String → List ReserveLine → ReserveCommand
wants key lines = record {
  order_id = "o1";
  idempotency_key = key;
  correlation_id = "";
  lines = lines;
  expires_at = 0;
}

abbrev pub first_order : ReserveCommand
first_order = wants "k1" (line "s2" 1 ∷ line "s1" 2 ∷ line " s1" 3 ∷ [])

abbrev stock_of : Tables → List (ℤ × ℤ)
stock_of t = map (λ (r : LevelRow). (r.level.on_hand, r.level.reserved)) t.levels

abbrev given : Outcome (Tables × ReservationResult) → List (String × String × ℤ)
given (err e) = []
given (ok (t, result)) =
    map (λ (a : ReservationAllocation). (a.sku, a.location_id, a.quantity)) result.allocations

unfoldable pub final : List Call → Tables → List (ℤ × ℤ)
unfolding answer_all all_of_order count_skus has_sku all_totals_match total_of terminal_order_state
    can_apply_terminal_fence settle_order settle_all settle_allocation existing_allocations
    allocations_match_command reserve_anew reserve_lines reserve_line visit_candidates
    visit_candidate available new_reservation reserve wrap64 ◌+ℤ◌ ◌-ℤ◌
final calls t = stock_of (answer_all texts names calls t)

-- The lines with one SKU are added up, and the first location gives what it has.
given_first :
    given (service_reserve texts names 7 first_order stocked)
    ≡ ("s1", "l1", pos 3) ∷ ("s1", "l2", pos 2) ∷ ("s2", "l1", pos 1) ∷ []
unfolding service_reserve terminal_order_state existing_allocations allocations_match_command
    reserve_anew reserve_lines reserve_line visit_candidates visit_candidate available
    new_reservation reserve wrap64 ◌+ℤ◌ ◌-ℤ◌
given_first = refl

stock_first :
    final (reserve_call 7 first_order ∷ []) stocked
    ≡ (pos 3, pos 3) ∷ (pos 5, pos 1) ∷ (pos 10, pos 2) ∷ []
unfolding final
stock_first = refl

-- The same key again gives the same reservations and changes nothing.
stock_again :
    stock_of (
      answer_all texts names (reserve_call 7 first_order ∷ reserve_call 9 first_order ∷ []) stocked)
    ≡ (pos 3, pos 3) ∷ (pos 5, pos 1) ∷ (pos 10, pos 2) ∷ []
unfolding final
stock_again = refl

-- More than there is: the whole transaction is rolled back.
stock_short :
    stock_of (
      answer_all texts names
        (reserve_call 7 (wants "k2" (line "s1" 4 ∷ line "s2" 6 ∷ [])) ∷ [])
        stocked)
    ≡ stock_of stocked
unfolding final
stock_short = refl

abbrev pub sold : List Call
sold = reserve_call 7 first_order ∷ transition_call 8 "o1" commit ∷ []

stock_sold : (final sold stocked) ≡ (pos 0, pos 0) ∷ (pos 4, pos 0) ∷ (pos 8, pos 0) ∷ []
unfolding final
stock_sold = refl

-- An expiry before the time is left out.
stock_early :
    stock_of (
      answer_all texts names
        (reserve_call 7 first_order ∷ transition_call 8 "o1" expire ∷ [])
        stocked)
    ≡ (pos 3, pos 3) ∷ (pos 5, pos 1) ∷ (pos 10, pos 2) ∷ []
unfolding final
stock_early = refl
