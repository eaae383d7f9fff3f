-- ===== src/Commerce/Breaker.antt =====
-- The circuit breaker of templates/commerce/internal/platform/client/breaker.go. The mutex makes
-- each method one step. The clock's reading is an argument, and a time is a number of nanoseconds;
-- the zero time stands for no moment, since `opened_to` is read only after it is set.
use jiade.Prelude.{
  ℕ, zero, suc, ◌+◌, ◌≤◌, ◌<◌, ◌≡◌, refl, Bool, true, false, not, ◌&&◌, List, [], ◌∷◌, arith, ltb,
  if◌then◌else◌, length, ◌++◌, ◌∙◌, ap, map, All,
}
use jiade.Prelude.Int.{ℤ, pos, ltb_ℤ, leb_ℤ, ◌+ℤ◌}
use jiade.Prelude.Int64.{add64, wrap64, half_range}
mod Tests

pub record BreakerConfig : Type 0 where
  pub failure_threshold : ℤ
  pub open_for : ℤ

pub data BreakerState : Type 0 where
  closed open_state half_open : BreakerState

pub record Breaker : Type 0 where
  pub config : BreakerConfig
  pub state : BreakerState
  pub failures : ℤ
  pub opened_to : ℤ
  pub probing : Bool

-- Thirty seconds are counted in nanoseconds.
unfoldable pub new_breaker : BreakerConfig → Breaker
new_breaker config = record {
  config = record {
    failure_threshold =
        if leb_ℤ config.failure_threshold (pos 0) then pos 5 else config.failure_threshold;
    open_for = if leb_ℤ config.open_for (pos 0) then pos 30000000000 else config.open_for;
  };
  state = closed;
  failures = pos 0;
  opened_to = pos 0;
  probing = false;
}

abbrev is_closed : BreakerState → Bool
is_closed closed = true
is_closed _ = false

-- The state after the test of the cooling-off period.
abbrev cooled : ℤ → Breaker → BreakerState
cooled now b = elim (b.state) [
  | open_state ↦ if ltb_ℤ now b.opened_to then open_state else half_open
  | closed ↦ closed
  | half_open ↦ half_open
]

abbrev is_half_open : BreakerState → Bool
is_half_open half_open = true
is_half_open _ = false

-- Whether the request may proceed.
unfoldable pub allow : ℤ → Breaker → Breaker × Bool
allow now b =
    let state = cooled now b in
    if is_closed b.state
    then (b, true)
    else if is_half_open state && not b.probing
    then (record b { state = state; probing = true }, true)
    else (record b { state = state }, false)

tripped : ℤ → Breaker → Breaker
unfolding ◌+ℤ◌
tripped now b = record b { state = open_state; opened_to = now +ℤ b.config.open_for }

record_closed : ℤ → Bool → Breaker → Breaker
unfolding tripped
record_closed now success b =
    let failures = add64 b.failures (pos 1) in
    if success
    then record b { failures = pos 0 }
    else if ltb_ℤ failures b.config.failure_threshold
    then record b { failures = failures }
    else tripped now (record b { failures = failures })

record_probe : ℤ → Bool → Breaker → Breaker
unfolding tripped
record_probe now success b =
    if success
    then record b { probing = false; state = closed; failures = pos 0 }
    else tripped now (record b { probing = false })

unfoldable pub record_outcome : ℤ → Bool → Breaker → Breaker
unfolding record_closed record_probe
record_outcome now success b = elim (b.state) [
  | closed ↦ record_closed now success b
  | half_open ↦ record_probe now success b
  | open_state ↦ b
]

unfoldable pub abandon : Breaker → Breaker
abandon b = if is_half_open b.state then record b { probing = false } else b

-- Failures that are recorded one after the other.
unfoldable pub failing : List ℤ → Breaker → Breaker
failing [] b = b
failing (now ∷ rest) b = failing rest (record_outcome now false b)

-- Fewer failures than the threshold leave the breaker closed.
one_failure :
    (b : Breaker) (now : ℤ) (k n : ℕ)
    → b.state ≡ closed
    → b.failures ≡ pos k
    → b.config.failure_threshold ≡ pos n
    → k + 1 < n
    → n < half_range
    → record_outcome now false b ≡ record b { failures = pos (k + 1) }
unfolding record_outcome record_closed wrap64 ◌+ℤ◌
one_failure b now k n e f g h range = ground arith

-- The failure that reaches the threshold opens it.
last_failure :
    (b : Breaker) (now : ℤ) (k : ℕ)
    → b.state ≡ closed
    → b.failures ≡ pos k
    → b.config.failure_threshold ≡ pos (k + 1)
    → k + 1 < half_range
    → record_outcome now false b ≡ record b {
      state = open_state;
      failures = pos (k + 1);
      opened_to = now +ℤ b.config.open_for;
    }
unfolding record_outcome record_closed tripped wrap64 ◌+ℤ◌
last_failure b now k e f g range = ground arith

-- What a breaker that has counted `k` failures looks like.
abbrev pub counted : Breaker → ℕ → Breaker
counted b k = record b { state = closed; failures = pos k }

abbrev pub opened : Breaker → ℕ → ℤ → Breaker
opened b k now = record b {
  state = open_state;
  failures = pos k;
  opened_to = now +ℤ b.config.open_for;
}

failing_below :
    (b : Breaker) (times : List ℤ) (k n : ℕ)
    → b.config.failure_threshold ≡ pos n
    → k + length times < n
    → n < half_range
    → failing times (counted b k) ≡ counted b (k + length times)
unfolding failing
failing_below b [] k n g h range = let e : k ≡ k + 0 = omega arith in ap (counted b) e
failing_below b (now ∷ rest) k n g h range =
    let e : k + 1 + length rest ≡ k + suc (length rest) = omega arith in
    ap (failing rest) (one_failure (counted b k) now k n refl refl g (omega arith) range)
    ∙ failing_below b rest (k + 1) n g (omega arith) range
    ∙ ap (counted b) e

failing-append : (xs ys : List ℤ) (b : Breaker) → failing (xs ++ ys) b ≡ failing ys (failing xs b)
unfolding failing
failing-append [] ys b = refl
failing-append (x ∷ xs) ys b = failing-append xs ys (record_outcome x false b)

failing-one : (now : ℤ) (b : Breaker) → failing (now ∷ []) b ≡ record_outcome now false b
unfolding failing
failing-one now b = refl

-- Requests that come one after the other, with their answers.
unfoldable pub asking : List ℤ → Breaker → Breaker × List Bool
unfolding allow
asking [] b = (b, [])
asking (now ∷ rest) b =
    let (first, answer) = allow now b in
    let (last, answers) = asking rest first in (last, answer ∷ answers)

abbrev pub none_passes : List ℤ → List Bool
none_passes times = map (λ now. false) times

-- The breaker while its one probe is under way.
abbrev pub probed : Breaker → ℕ → ℤ → Breaker
probed b k last = record (opened b k last) { state = half_open; probing = true }

asking_early :
    (b : Breaker) (k : ℕ) (last : ℤ) (times : List ℤ)
    → All (λ now. ltb_ℤ now (last +ℤ b.config.open_for) ≡ true) times
    → asking times (opened b k last) ≡ (opened b k last, none_passes times)
unfolding asking
asking_early b k last [] h = refl
asking_early b k last (now ∷ rest) h = rw (h.0, asking_early b k last rest (h.1)) refl

asking-probed :
    (b : Breaker) (k : ℕ) (last : ℤ) (times : List ℤ)
    → asking times (probed b k last) ≡ (probed b k last, none_passes times)
unfolding asking
asking-probed b k last [] = refl
asking-probed b k last (now ∷ rest) = rw (asking-probed b k last rest) refl

first_probe :
    (b : Breaker) (k : ℕ) (last late : ℤ)
    → b.probing ≡ false
    → ltb_ℤ late (last +ℤ b.config.open_for) ≡ false
    → allow late (opened b k last) ≡ (probed b k last, true)
unfolding allow
first_probe b k last late idle over = rw (over, idle) refl

-- A closed breaker with no probe under way stays closed, and lets requests pass, as long as the
-- failures in a row are fewer than its threshold; the failure that reaches the threshold opens it.
-- From then on, however many requests come before the cooling-off period is over, each is refused
-- and the breaker stays as it is; the first request after the period passes as a probe, and every
-- request behind it is refused, whenever it comes, as long as no outcome is recorded and the probe
-- is not abandoned.
pub failing-opens :
    (b : Breaker) (times early behind : List ℤ) (last now late : ℤ)
    → b.config.failure_threshold ≡ pos (length times + 1)
    → length times + 1 < half_range
    → b.probing ≡ false
    → All (λ early_time. ltb_ℤ early_time (last +ℤ b.config.open_for) ≡ true) early
    → ltb_ℤ late (last +ℤ b.config.open_for) ≡ false
    → (failing times (counted b 0) ≡ counted b (length times))
      × ((allow now (counted b (length times))).1 ≡ true)
      × (failing (times ++ last ∷ []) (counted b 0) ≡ opened b (length times + 1) last)
      × (asking early (opened b (length times + 1) last)
          ≡ (opened b (length times + 1) last, none_passes early))
      × (allow late (opened b (length times + 1) last) ≡ (probed b (length times + 1) last, true))
      × (asking behind (probed b (length times + 1) last)
          ≡ (probed b (length times + 1) last, none_passes behind))
unfolding allow
failing-opens b times early behind last now late g range idle h over =
    let e : 0 + length times ≡ length times = omega arith in
    let below =
      failing_below b times 0 (length times + 1) g (omega arith) range ∙ ap (counted b) e in
    (
      below,
      refl,
      failing-append times (last ∷ []) (counted b 0)
          ∙ ap (failing (last ∷ [])) below
          ∙ failing-one last (counted b (length times))
          ∙ last_failure (counted b (length times)) last (length times) refl refl g range,
      asking_early b (length times + 1) last early h,
      first_probe b (length times + 1) last late idle over,
      asking-probed b (length times + 1) last behind,
    )
