-- ===== src/Commerce/Order/Tests.antt =====
-- Runs of templates/commerce/internal/order, and its laws at concrete orders.
use jiade.Prelude.{◌≡◌, refl, true, some, List, [], ◌∷◌, arith}
use jiade.Prelude.Int.{pos}
use jiade.Commerce.Order.State.{
  Event, checkout_started, payment_succeeded, payment_failed, fulfillment_completed, transition,
}
use jiade.Commerce.Order.Money.{Line, calculate_totals}
use jiade.Commerce.Order.Lifecycle.{run, occurs, completed_was_paid}
use jiade.Commerce.Order.Totals.{Payable, totals_of, calculate_totals-Payable, Payable-of_totals}

-- A payment that is reported twice, and one that fails too late.
abbrev deliveries : List Event
deliveries =
    checkout_started ∷ payment_succeeded ∷ payment_succeeded ∷ payment_failed
    ∷ fulfillment_completed ∷ []

completed_was_paid_example :
    (occurs checkout_started deliveries ≡ true)
    × (occurs payment_succeeded deliveries ≡ true)
    × (occurs fulfillment_completed deliveries ≡ true)
unfolding run transition
completed_was_paid_example = completed_was_paid deliveries refl

abbrev basket : List Line
basket =
    record { quantity = pos 2; unit_price_minor = pos 500; discount_minor = pos 100 }
    ∷ record { quantity = pos 1; unit_price_minor = pos 300; discount_minor = pos 0 }
    ∷ []

basket-Payable : Payable basket (pos 50) (pos 30)
basket-Payable = record {
  not_empty = omega arith;
  valid = (
    record {
      some_items = omega arith;
      price = omega arith;
      no_surcharge = omega arith;
      covered = omega arith;
    },
    (
      record {
        some_items = omega arith;
        price = omega arith;
        no_surcharge = omega arith;
        covered = omega arith;
      },
      tt,
    ),
  );
  shipping_nonneg = omega arith;
  tax_nonneg = omega arith;
  subtotal_fits = omega arith;
  total_fits = omega arith;
}

basket_total : (totals_of basket (pos 50) (pos 30)).total ≡ pos 1280
basket_total = refl

calculate_totals-Payable_example :
    calculate_totals basket (pos 50) (pos 30) ≡ some (totals_of basket (pos 50) (pos 30))
calculate_totals-Payable_example = calculate_totals-Payable basket (pos 50) (pos 30) basket-Payable

Payable-of_totals_example : Payable basket (pos 50) (pos 30)
Payable-of_totals_example =
    Payable-of_totals basket (pos 50) (pos 30) (totals_of basket (pos 50) (pos 30))
      calculate_totals-Payable_example
