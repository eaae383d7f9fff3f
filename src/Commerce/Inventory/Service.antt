-- ===== src/Commerce/Inventory/Service.antt =====
-- `Reserve` and `TransitionOrder` of templates/commerce/internal/inventory/service.go over the
-- store. `Texts` is what the code takes from strings and from the order of strings. Times are
-- nanoseconds, 0 for Go's zero time; `now` is what the clock gives.
use jiade.Prelude.{
  ℕ, ◌+◌, String, Bool, true, false, not, ◌&&◌, ◌||◌, ◌==◌, ltb, Option, none, some, List, [], ◌∷◌,
  length, str_eq, if◌then◌else◌,
}
use jiade.Prelude.Int.{ℤ, pos, ltb_ℤ, leb_ℤ}
use jiade.Prelude.Int64.{max_int64, add64, sub64}
use jiade.Commerce.Inventory.Model.{ReservationEvent}
use jiade.Commerce.Inventory.Store.Rows.{invalid_command, Outcome, ok, err, Tables, Names, ◌>>=◌}
use jiade.Commerce.Inventory.Store.Reserve.{
  ReserveLine, ReserveCommand, ReservationResult, reserve_order,
}
use jiade.Commerce.Inventory.Store.Transition.{transition_order}
pub mod Quantities
pub mod Served
pub mod History
pub mod Ended
pub mod Runs
mod Tests

-- `TrimSpace` and `<` on strings.
pub record Texts : Type 0 where
  pub trim : String → String
  pub before : String → String → Bool

abbrev pub default_reservation_ttl : ℕ
default_reservation_ttl = 900000000000

abbrev pub max_reservation_lines : ℕ
max_reservation_lines = 100

-- The map `quantities`: reading a key, 0 without one, and writing it.
unfoldable pub quantity_of : String → List ReserveLine → ℤ
quantity_of sku [] = pos 0
quantity_of sku (line ∷ rest) =
    let found = quantity_of sku rest in if str_eq line.sku sku then line.quantity else found

unfoldable pub set_quantity : String → ℤ → List ReserveLine → List ReserveLine
set_quantity sku q [] = record { sku = sku; quantity = q } ∷ []
set_quantity sku q (line ∷ rest) =
    let later = set_quantity sku q rest in
    if str_eq line.sku sku then record line { quantity = q } ∷ rest else line ∷ later

-- The test of a line.
abbrev pub is_refused : String → ReserveLine → List ReserveLine → Bool
is_refused sku line quantities =
    str_eq sku ""
    || (leb_ℤ line.quantity (pos 0)
        || ltb_ℤ (sub64 max_int64 line.quantity) (quantity_of sku quantities))

-- The loop over the lines of the command; `none` is ErrInvalidCommand.
unfoldable pub merge_lines : Texts → List ReserveLine → List ReserveLine → Option (List ReserveLine)
unfolding quantity_of set_quantity
merge_lines texts [] quantities = some quantities
merge_lines texts (line ∷ rest) quantities =
    let sku = texts.trim line.sku in
    let merged =
      merge_lines texts rest
        (set_quantity sku (add64 (quantity_of sku quantities) line.quantity) quantities) in
    if is_refused sku line quantities then none else merged

-- sort.Slice by the SKU, where no two lines have the same one.
unfoldable pub insert_line : Texts → ReserveLine → List ReserveLine → List ReserveLine
insert_line texts new [] = new ∷ []
insert_line texts new (line ∷ rest) =
    let later = insert_line texts new rest in
    if texts.before new.sku line.sku then new ∷ line ∷ rest else line ∷ later

unfoldable pub sort_lines : Texts → List ReserveLine → List ReserveLine
unfolding insert_line
sort_lines texts [] = []
sort_lines texts (line ∷ rest) = insert_line texts line (sort_lines texts rest)

abbrev pub expiry : ℕ → ℕ → ℕ
expiry now expires_at = if expires_at == 0 then now + default_reservation_ttl else expires_at

-- `Reserve` behind the loop, of the trimmed command and the quantities.
unfoldable pub reserve_merged :
    Texts
    → Names
    → ℕ
    → ReserveCommand
    → List ReserveLine
    → Tables
    → Outcome (Tables × ReservationResult)
unfolding sort_lines reserve_order
reserve_merged texts names now command quantities t =
    if not (ltb now (expiry now command.expires_at))
    then err invalid_command
    else reserve_order names
        (record command {
          lines = sort_lines texts quantities;
          expires_at = expiry now command.expires_at;
          correlation_id =
              if str_eq command.correlation_id "" then command.order_id else command.correlation_id;
        })
        t

abbrev pub trimmed : Texts → ReserveCommand → ReserveCommand
trimmed texts command = record command {
  order_id = texts.trim command.order_id;
  idempotency_key = texts.trim command.idempotency_key;
}

abbrev pub is_malformed : ReserveCommand → Bool
is_malformed command =
    str_eq command.order_id ""
    || (str_eq command.idempotency_key ""
        || (length command.lines == 0 || ltb max_reservation_lines (length command.lines)))

unfoldable pub service_reserve :
    Texts → Names → ℕ → ReserveCommand → Tables → Outcome (Tables × ReservationResult)
unfolding merge_lines reserve_merged
service_reserve texts names now command t =
    if is_malformed (trimmed texts command)
    then err invalid_command
    else elim (merge_lines texts command.lines []) [
      | none ↦ err invalid_command
      | some quantities ↦ reserve_merged texts names now (trimmed texts command) quantities t
    ]

abbrev pub is_known : ReservationEvent → Bool
is_known (ReservationEvent.other s) = false
is_known _ = true

unfoldable pub service_transition_order :
    Texts → Names → ℕ → String → ReservationEvent → Tables → Outcome (Tables × ReservationResult)
unfolding transition_order
service_transition_order texts names now order event t =
    if str_eq (texts.trim order) ""
    then err invalid_command
    else if not (is_known event)
    then err invalid_command
    else transition_order names (texts.trim order) event now t >>= λ done.
        ok (done.0, record { order_id = texts.trim order; allocations = done.1; existing = false })
