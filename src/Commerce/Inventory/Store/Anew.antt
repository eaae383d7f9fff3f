-- ===== src/Commerce/Inventory/Store/Anew.antt =====
-- `Reserve` of templates/commerce/internal/inventory/store.go keeps the levels and the reservations
-- in agreement.
use jiade.Prelude.{
  ◌≡◌, refl, ◌∙◌, String, true, false, ltb, some, List, length, str_eq, eq_iff, Bool-cases, inl,
  inr, arith,
}
use jiade.Prelude.Int.{zero-+ℤ}
use jiade.Commerce.Inventory.Model.{ReservationEvent}
use jiade.Commerce.Inventory.Store.Rows.{
  Outcome, ok, ReservationAllocation, Tables, Names, existing_allocations, terminal_order_state,
}
use jiade.Commerce.Inventory.Store.Reserve.{
  ReserveCommand, ReservationResult, reserve_lines, allocations_match_command, reserved_result,
  reserve_anew, is_open, reserve_order,
}
use jiade.Commerce.Inventory.Store.Facts.{first_ok, NoneActive}
use jiade.Commerce.Inventory.Store.Filled.{amount_of}
use jiade.Commerce.Inventory.Store.Lines.{wanted, AllCountable, reserve_lines-AreFilled}
use jiade.Commerce.Inventory.Store.Kept.{IsConsistent}

pub reserve_anew-IsConsistent :
    (names : Names) (command : ReserveCommand) (result : ReservationResult) (t t' : Tables)
    → IsConsistent t
    → AllCountable command.lines
    → reserve_anew names command t ≡ ok (t', result)
    → IsConsistent t'
      × (t'.terminal ≡ t.terminal)
      × ((o : String)
          → str_eq command.order_id o ≡ false
          → NoneActive o t.reservations
          → NoneActive o t'.reservations)
      × ((s : String) → amount_of s result.allocations ≡ wanted s command.lines)
unfolding reserve_anew amount_of
reserve_anew-IsConsistent names command result t t' c n e =
    let (f, done, end) = first_ok (reserve_lines names command command.lines _) _ e in
    let all = reserve_lines-AreFilled names command command.lines _ f done c.sound c.distinct n in
    let same : (reserved_result command f).0 ≡ t' = cc in
    let same_result : (reserved_result command f).1 ≡ result = cc in
    rw (← same, ← same_result)
      (
        record {
          sound = record {
            levels_valid = all.sound.levels_valid;
            levels_held = all.sound.levels_held;
            ids = all.sound.ids;
          };
          distinct = all.distinct;
        },
        all.same_terminal,
        all.others,
        λ s. all.amounts s ∙ zero-+ℤ _,
      )

-- What a reservation leaves, and what a new one gives.
pub record IsReserved (command : ReserveCommand) (t t' : Tables) (result : ReservationResult)
    : Type 0 where
  pub consistent : IsConsistent t'
  pub same_terminal : t'.terminal ≡ t.terminal
  pub others :
      (o : String) (e : ReservationEvent)
      → terminal_order_state o t.terminal ≡ some e
      → NoneActive o t.reservations
      → NoneActive o t'.reservations
  pub gives :
      result.existing ≡ false
      → (s : String) → amount_of s result.allocations ≡ wanted s command.lines

replayed :
    {command : ReserveCommand} {t t' : Tables} {r result : ReservationResult}
    → IsConsistent t
    → r.existing ≡ true
    → ◌≡◌ {A = Outcome (Tables × ReservationResult)} (ok (t, r)) (ok (t', result))
    → IsReserved command t t' result
replayed {command} {t} {t'} {r} {result} c x e =
    let same : t ≡ t' = cc in
    let same_result : r ≡ result = cc in
    rw (← same, ← same_result)
      (record {
        consistent = c;
        same_terminal = refl;
        others = λ o e q k. k;
        gives = λ h. absurd (cc);
      })

other_order :
    (order o : String) (e : ReservationEvent) (t : Tables)
    → is_open (terminal_order_state order t.terminal) ≡ true
    → terminal_order_state o t.terminal ≡ some e
    → str_eq order o ≡ false
other_order order o e t m q = elim (Bool-cases (str_eq order o)) [
  | inr z ↦ z
  | inl z ↦
      let same : order ≡ o = (eq_iff order o).0 z in absurd (ground (arith, (rw (same, q) at m)))
]

pub reserve_order-IsReserved :
    (names : Names) (command : ReserveCommand) (result : ReservationResult) (t t' : Tables)
    → IsConsistent t
    → AllCountable command.lines
    → reserve_order names command t ≡ ok (t', result)
    → IsReserved command t t' result
unfolding reserve_order
reserve_order-IsReserved names command result t t' c n e =
    elim (Bool-cases (ltb 0 (length found))) [
      | inl z ↦ elim (Bool-cases (allocations_match_command found command)) [
        | inl m ↦ replayed c refl (rw (z, m) at e)
        | inr m ↦ absurd (ground (arith, (rw (z, m) at e)))
      ]
      | inr z ↦ elim (Bool-cases (is_open (terminal_order_state command.order_id t.terminal))) [
        | inr m ↦ absurd (ground (arith, (rw (z, m) at e)))
        | inl m ↦
            let done = reserve_anew-IsConsistent names command result t t' c n (rw (z, m) at e) in
            record {
              consistent = done.0;
              same_terminal = done.1;
              others = λ o x q k. done.2 o (other_order command.order_id o x t m q) k;
              gives = λ h. done.3;
            }
      ]
    ]
  where
    found : List ReservationAllocation
    found = existing_allocations names (names.key_prefix command.idempotency_key) t.reservations
