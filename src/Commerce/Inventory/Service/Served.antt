-- ===== src/Commerce/Inventory/Service/Served.antt =====
-- What `Reserve` of templates/commerce/internal/inventory/service.go gives.
use jiade.Prelude.{
  ℕ, ◌≡◌, refl, ◌∙◌, String, false, not, ltb, Option, none, some, List, [], Bool-cases, inl, inr,
  arith,
}
use jiade.Prelude.Int.{zero-+ℤ}
use jiade.Commerce.Inventory.Model.{ReservationEvent}
use jiade.Commerce.Inventory.Store.Facts.{NoneActive}
use jiade.Commerce.Inventory.Store.Rows.{
  invalid_command, ok, err, Tables, Names, terminal_order_state,
}
use jiade.Commerce.Inventory.Store.Reserve.{ReserveLine, ReserveCommand, ReservationResult}
use jiade.Commerce.Inventory.Service.{
  Texts, merge_lines, expiry, reserve_merged, trimmed, is_malformed, service_reserve,
}
use jiade.Commerce.Inventory.Store.Filled.{amount_of}
use jiade.Commerce.Inventory.Store.Lines.{wanted}
use jiade.Commerce.Inventory.Store.Kept.{IsConsistent}
use jiade.Commerce.Inventory.Store.Anew.{reserve_order-IsReserved}
use jiade.Commerce.Inventory.Service.Quantities.{
  AllInt64, asked, IsMerged, merge_lines-IsMerged, sort_lines-sums,
}

-- What `Reserve` of the service leaves and gives.
pub record IsServed (texts : Texts) (command : ReserveCommand) (t t' : Tables)
    (result : ReservationResult) : Type 0 where
  pub consistent : IsConsistent t'
  pub same_terminal : t'.terminal ≡ t.terminal
  pub others :
      (o : String) (e : ReservationEvent)
      → terminal_order_state o t.terminal ≡ some e
      → NoneActive o t.reservations
      → NoneActive o t'.reservations
  pub gives :
      result.existing ≡ false
      → (s : String) → amount_of s result.allocations ≡ asked texts s command.lines

reserve_merged-IsServed :
    (texts : Texts) (names : Names) (now : ℕ) (command : ReserveCommand) (qs : List ReserveLine)
    (result : ReservationResult) (t t' : Tables)
    → IsConsistent t
    → IsMerged texts command.lines [] qs
    → reserve_merged texts names now (trimmed texts command) qs t ≡ ok (t', result)
    → IsServed texts command t t' result
unfolding reserve_merged wanted
reserve_merged-IsServed texts names now command qs result t t' c m e =
    elim (Bool-cases (not (ltb now (expiry now command.expires_at)))) [
      | inl z ↦ absurd (ground (arith, (rw z at e)))
      | inr z ↦
          let (countable, sums) = sort_lines-sums texts qs m.countable in
          let done = reserve_order-IsReserved names _ result t t' c countable (rw z at e) in
          record {
            consistent = done.consistent;
            same_terminal = done.same_terminal;
            others = done.others;
            gives = λ h s. done.gives h s ∙ (sums s ∙ (m.sums s ∙ zero-+ℤ _));
          }
    ]

pub service_reserve-IsServed :
    (texts : Texts) (names : Names) (now : ℕ) (command : ReserveCommand)
    (result : ReservationResult) (t t' : Tables)
    → IsConsistent t
    → AllInt64 command.lines
    → service_reserve texts names now command t ≡ ok (t', result)
    → IsServed texts command t t' result
unfolding service_reserve
service_reserve-IsServed texts names now command result t t' c i e =
    elim (Bool-cases (is_malformed (trimmed texts command))) [
      | inl z ↦ absurd (ground (arith, (rw z at e)))
      | inr z ↦ go (merge_lines texts command.lines []) refl (rw z at e)
    ]
  where
    go :
        (o : Option (List ReserveLine))
        → merge_lines texts command.lines [] ≡ o
        → elim o [
          | none ↦ err invalid_command
          | some quantities ↦ reserve_merged texts names now (trimmed texts command) quantities t
        ]
          ≡ ok (t', result)
        → IsServed texts command t t' result
    go none q k = absurd (cc)
    go (some qs) q k =
        reserve_merged-IsServed texts names now command qs result t t' c
          (merge_lines-IsMerged texts command.lines [] qs i tt q) k

-- From tables that agree, a command that the service accepts anew is allocated in full: of each
-- SKU, the allocations give what the lines with that SKU ask for together, no more and no less,
-- from whatever locations, with no wrap-around. The quantities of the lines are values of int64.
pub reserve_gives :
    (texts : Texts) (names : Names) (now : ℕ) (command : ReserveCommand)
    (result : ReservationResult) (t t' : Tables)
    → IsConsistent t
    → AllInt64 command.lines
    → service_reserve texts names now command t ≡ ok (t', result)
    → result.existing ≡ false
    → (s : String) → amount_of s result.allocations ≡ asked texts s command.lines
reserve_gives texts names now command result t t' c i e h =
    (service_reserve-IsServed texts names now command result t t' c i e).gives h
