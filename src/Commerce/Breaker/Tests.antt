-- ===== src/Commerce/Breaker/Tests.antt =====
-- Runs of templates/commerce/internal/platform/client/breaker.go.
use jiade.Prelude.{◌≡◌, refl, List, [], ◌∷◌, ◌++◌, true, false, arith}
use jiade.Prelude.Int.{ℤ, pos, ◌+ℤ◌}
use jiade.Commerce.Breaker.{
  Breaker, new_breaker, allow, abandon, counted, opened, failing, asking, none_passes, probed,
  failing-opens,
}

abbrev fresh : Breaker
fresh = new_breaker (record { failure_threshold = pos 3; open_for = pos 50 })

abbrev two : List ℤ
two = pos 10 ∷ pos 20 ∷ []

-- After the cooling-off period one probe passes, a second one waits until the first is given up.
probes :
    (allow (pos 79) (opened fresh 3 (pos 30))).1
      ∷ (allow (pos 80) (opened fresh 3 (pos 30))).1
      ∷ (allow (pos 90) (allow (pos 80) (opened fresh 3 (pos 30))).0).1
      ∷ (allow (pos 90) (abandon (allow (pos 80) (opened fresh 3 (pos 30))).0)).1
      ∷ []
    ≡ false ∷ true ∷ false ∷ true ∷ []
unfolding new_breaker allow abandon ◌+ℤ◌
probes = refl

abbrev early : List ℤ
early = pos 31 ∷ pos 60 ∷ pos 79 ∷ []

abbrev behind : List ℤ
behind = pos 81 ∷ pos 400 ∷ []

failing-opens_example :
    (failing two (counted fresh 0) ≡ counted fresh 2)
    × ((allow (pos 79) (counted fresh 2)).1 ≡ true)
    × (failing (two ++ pos 30 ∷ []) (counted fresh 0) ≡ opened fresh 3 (pos 30))
    × (asking early (opened fresh 3 (pos 30)) ≡ (opened fresh 3 (pos 30), none_passes early))
    × (allow (pos 80) (opened fresh 3 (pos 30)) ≡ (probed fresh 3 (pos 30), true))
    × (asking behind (probed fresh 3 (pos 30)) ≡ (probed fresh 3 (pos 30), none_passes behind))
unfolding new_breaker ◌+ℤ◌
failing-opens_example =
    failing-opens fresh two early behind (pos 30) (pos 79) (pos 80) refl (omega arith) refl
      (refl, (refl, (refl, tt))) refl
