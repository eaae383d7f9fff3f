-- ===== src/Commerce/Payment/Tests.antt =====
-- Runs of templates/commerce/internal/payment/state.go.
use jiade.Prelude.{◌≡◌, ◌<◌, ◌⊎◌, refl, [], ◌∷◌, false}
use jiade.Commerce.Payment.{
  requires_method, succeeded, refunded, method_attached, authorize, capture, refund, cancel,
  transition, run, rank, run-advances,
}

late_cancel : transition succeeded cancel ≡ (succeeded, false)
unfolding transition
late_cancel = refl

whole_life :
    run requires_method (method_attached ∷ authorize ∷ capture ∷ authorize ∷ refund ∷ capture ∷ [])
    ≡ refunded
unfolding run transition
whole_life = refl

run-advances_example :
    (run succeeded (cancel ∷ refund ∷ []) ≡ succeeded)
    ⊎ (rank succeeded < rank (run succeeded (cancel ∷ refund ∷ [])))
run-advances_example = run-advances succeeded (cancel ∷ refund ∷ [])
