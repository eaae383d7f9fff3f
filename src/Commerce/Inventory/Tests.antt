-- ===== src/Commerce/Inventory/Tests.antt =====
-- Runs of templates/commerce/internal/inventory/model.go, and its laws at concrete stock.
use jiade.Prelude.{◌≡◌, ◌↔◌, refl, none, some, [], ◌∷◌, arith}
use jiade.Prelude.Int.{pos, negsuc, ◌+ℤ◌, ◌-ℤ◌}
use jiade.Prelude.Int64.{wrap64}
use jiade.Commerce.Inventory.{
  Level, Reservation, ReservationState, active, commit, release, invalid_inventory, reserve,
  apply_reservation_effect, transition, new_reservation,
}
use jiade.Commerce.Inventory.Levels.{IsValid, CanReserve, reserve_iff, effect_agrees}
use jiade.Commerce.Inventory.Ledger.{Book, IsBalanced, settle, here, next, total, Steps-IsBalanced}

abbrev stock : Level
stock = record { on_hand = pos 10; reserved = pos 4 }

abbrev hold : ReservationState → Reservation
hold s = record {
  id = "r1";
  order_id = "o1";
  sku = "s1";
  location_id = "l1";
  idempotency_key = "k1";
  quantity = pos 4;
  state = s;
  expires_at = 7;
}

stock-IsValid : IsValid stock
stock-IsValid = omega arith

can_reserve : CanReserve stock (hold active)
unfolding ◌+ℤ◌
can_reserve = record { held = refl; positive = omega arith; enough = omega arith }

reserve_more :
    reserve stock (hold active) ≡ (record { on_hand = pos 10; reserved = pos 8 }, hold active, none)
unfolding reserve wrap64 ◌+ℤ◌ ◌-ℤ◌
reserve_more = refl

new_reservation_negative :
    (new_reservation "r1" "o1" "s1" "l1" "k1" (negsuc 0) 7).1 ≡ some invalid_inventory
unfolding new_reservation
new_reservation_negative = refl

new_reservation_held : new_reservation "r1" "o1" "s1" "l1" "k1" (pos 4) 7 ≡ (hold active, none)
unfolding new_reservation
new_reservation_held = refl

reserve_iff_example : ((reserve stock (hold active)).2 ≡ none) ↔ CanReserve stock (hold active)
reserve_iff_example = reserve_iff stock (hold active) stock-IsValid

effect_agrees_example :
    transition (hold active) release
    ≡ ((apply_reservation_effect stock (hold active) release).1, none)
unfolding apply_reservation_effect wrap64 ◌-ℤ◌
effect_agrees_example = effect_agrees stock (hold active) release refl

abbrev opening : Book
opening = record { level = stock; holds = hold active ∷ [] }

opening-IsBalanced : IsBalanced (pos 10) opening
unfolding total ◌+ℤ◌
opening-IsBalanced = record { valid = stock-IsValid; held = refl; received = refl }

abbrev later : Book
later = record {
  level = (apply_reservation_effect stock (hold active) commit).0;
  holds = (apply_reservation_effect stock (hold active) commit).1 ∷ [];
}

Steps-IsBalanced_example : IsBalanced (pos 10) later
Steps-IsBalanced_example =
    Steps-IsBalanced (pos 10) opening-IsBalanced (next here (settle 0 (hold active) commit refl))
