-- ===== src/Bank/CoreBanking/Calls.antt =====
-- The held transfers under a relation that the statements respect, and any sequence of the calls of
-- templates/bank/internal/corebanking/service.
use jiade.Prelude.{ℕ, String, ◌≡◌, Option, none, some, List, [], ◌∷◌}
use jiade.Bank.CoreBanking.Tx.{Store, Draws}
use jiade.Bank.CoreBanking.Types.{
  ok, ReverseMode, DemandAccount, Txn, Booking, Hold, PlaceHoldInput, RecordInput, PostHeldTransfer,
  ReverseTransfer,
}
use jiade.Bank.CoreBanking.Services.{
  place_hold, release_hold, record_txn, ReverseResult, reverse_txn,
}
use jiade.Bank.CoreBanking.Held.{
  check_hold, resolve_from, resolve_to, ensure_rows, settle_transfer, post_new_transfer,
  post_unless_known, post_held_transfer, post_reversal, reverse_transfer,
}
use jiade.Bank.CoreBanking.Moves.{
  Moves, Respects, Moves-bind, Moves-pure, Moves-lift, Moves-get_biz_date,
}
use jiade.Bank.CoreBanking.Respected.{
  Moves-get_demand, Moves-lock_hold, Moves-get_key, Moves-get_txns, Moves-has_reversal_for,
  Moves-existing, Moves-ensure, Moves-summary, Moves-hold_status,
}
use jiade.Bank.CoreBanking.Served.{
  Moves-guard, Moves-place_hold, Moves-release_hold, Moves-record_txn, Moves-reverse_txn,
}

-- A call that succeeds. A call that fails leaves the tables as they are.
pub data Call (s : Store) : Store → Type 0 where
  placed :
      (draws : Draws) (req : PlaceHoldInput) (h : Hold) (t : Store)
      → place_hold draws req s ≡ ok (h, t)
      → Call s t
  freed : (id : String) (h : Hold) (t : Store) → release_hold id s ≡ ok (h, t) → Call s t
  recorded :
      (draws : Draws) (req : RecordInput) (b : Booking) (t : Store)
      → record_txn draws req s ≡ ok (b, t)
      → Call s t
  turned_back :
      (draws : Draws) (v : String) (mode : ReverseMode) (b : ReverseResult) (t : Store)
      → reverse_txn draws v mode s ≡ ok (b, t)
      → Call s t
  transferred :
      (draws : Draws) (req : PostHeldTransfer) (b : Booking) (t : Store)
      → post_held_transfer draws req s ≡ ok (b, t)
      → Call s t
  transfer_undone :
      (draws : Draws) (req : ReverseTransfer) (b : Booking) (t : Store)
      → reverse_transfer draws req s ≡ ok (b, t)
      → Call s t

pub data Calls (s : Store) : Store → Type 0 where
  here : Calls s s
  next : {t u : Store} → Calls s t → Call t u → Calls s u

module _ {R : Store → Store → Type 0} (r : Respects R) where
  Moves-check : (req : PostHeldTransfer) (s : Store) → Moves R (check_hold req) s
  unfolding check_hold
  Moves-check req s = Moves-bind r.chains _ _ s (Moves-lock_hold r _ s) λ h t _.
      Moves-guard r _ _ _ t (
        Moves-guard r _ _ _ t
          (Moves-guard r _ _ _ t (Moves-guard r _ _ _ t (Moves-pure r.chains _ t))))

  Moves-from : (req : PostHeldTransfer) (s : Store) → Moves R (resolve_from req) s
  unfolding resolve_from
  Moves-from req s =
      Moves-bind r.chains _ _ s (Moves-get_demand r _ s)
        λ a t _. Moves-guard r _ _ _ t (Moves-guard r _ _ _ t (Moves-pure r.chains _ t))

  Moves-to : (req : PostHeldTransfer) (s : Store) → Moves R (resolve_to req) s
  unfolding resolve_to
  Moves-to req s =
      Moves-bind r.chains _ _ s (Moves-get_demand r _ s)
        λ a t _. Moves-guard r _ _ _ t (Moves-guard r _ _ _ t (Moves-pure r.chains _ t))

  Moves-rows :
      (req : PostHeldTransfer) (from to : DemandAccount) (day : ℕ) (keys : List String) (s : Store)
      → Moves R (ensure_rows req from to day keys) s
  unfolding ensure_rows
  Moves-rows req from to day [] s = Moves-pure r.chains tt s
  Moves-rows req from to day (key ∷ rest) s =
      Moves-bind r.chains _ _ s (Moves-ensure r key day _ s)
        λ _ t _. Moves-rows req from to day rest t

  Moves-settle :
      (draws : Draws) (req : PostHeldTransfer) (s : Store) → Moves R (settle_transfer draws req) s
  unfolding settle_transfer
  Moves-settle draws req s =
      Moves-bind r.chains _ _ s (Moves-hold_status r _ _ s)
        λ _ t _. Moves-bind r.chains _ _ t (r.transfer_kept _ t) λ _ u _. r.sent _ u

  Moves-post_new :
      (draws : Draws) (req : PostHeldTransfer) (day : ℕ) (s : Store)
      → Moves R (post_new_transfer draws req day) s
  unfolding post_new_transfer
  Moves-post_new draws req day s = Moves-bind r.chains _ _ s (Moves-check req s) λ _ t _.
      Moves-bind r.chains _ _ t (Moves-from req t) λ from t _.
        Moves-bind r.chains _ _ t (Moves-to req t) λ to t _.
          Moves-bind r.chains _ _ t (Moves-lift r.chains _ t) λ entries t _.
            Moves-bind r.chains _ _ t (Moves-rows req from to day _ t) λ _ t _.
              Moves-bind r.chains _ _ t (r.posted draws entries day _ _ _ t) λ txns t _.
                Moves-bind r.chains _ _ t (Moves-summary r _ _ t) λ _ t _.
                  Moves-bind r.chains _ _ t (Moves-settle draws req t)
                    λ _ t _. Moves-pure r.chains _ t

  Moves-unless_known :
      (draws : Draws) (req : PostHeldTransfer) (day : ℕ) (known : Option String) (s : Store)
      → Moves R (post_unless_known draws req day known) s
  unfolding post_unless_known
  Moves-unless_known draws req day none s = Moves-post_new draws req day s
  Moves-unless_known draws req day (some v) s = Moves-existing r v day s

  Moves-post_held_transfer :
      (draws : Draws) (req : PostHeldTransfer) (s : Store)
      → Moves R (post_held_transfer draws req) s
  unfolding post_held_transfer
  Moves-post_held_transfer draws req s =
      Moves-bind r.chains _ _ s (Moves-get_biz_date r.chains s) λ day t _.
        Moves-bind r.chains _ _ t (Moves-get_key r _ t)
          λ known u _. Moves-unless_known draws req day known u

  Moves-post_reversal :
      (draws : Draws) (req : ReverseTransfer) (day : ℕ) (origs : List Txn) (s : Store)
      → Moves R (post_reversal draws req day origs) s
  unfolding post_reversal
  Moves-post_reversal draws req day origs s =
      Moves-bind r.chains _ _ s (r.posted draws _ day _ _ _ s) λ txns t _.
        Moves-bind r.chains _ _ t (Moves-summary r _ _ t) λ _ t _.
          Moves-bind r.chains _ _ t (r.reversal_kept _ t)
            λ _ t _. Moves-bind r.chains _ _ t (r.sent _ t) λ _ t _. Moves-pure r.chains _ t

  Moves-reverse_transfer :
      (draws : Draws) (req : ReverseTransfer) (s : Store) → Moves R (reverse_transfer draws req) s
  unfolding reverse_transfer
  Moves-reverse_transfer draws req s =
      Moves-bind r.chains _ _ s (Moves-get_biz_date r.chains s) λ day t _.
        Moves-bind r.chains _ _ t (Moves-get_txns r _ t) λ origs t _. Moves-guard r _ _ _ t (
          Moves-bind r.chains _ _ t (Moves-has_reversal_for r _ t)
            λ has u _. Moves-guard r _ _ _ u (Moves-post_reversal draws req day origs u))

  Call-moves : {s t : Store} → Call s t → R s t
  Call-moves {s} (placed draws req h t e) = (Moves-place_hold r draws req s).at h t e
  Call-moves {s} (freed id h t e) = (Moves-release_hold r id s).at h t e
  Call-moves {s} (recorded draws req b t e) = (Moves-record_txn r draws req s).at b t e
  Call-moves {s} (turned_back draws v mode b t e) = (Moves-reverse_txn r draws v mode s).at b t e
  Call-moves {s} (transferred draws req b t e) = (Moves-post_held_transfer draws req s).at b t e
  Call-moves {s} (transfer_undone draws req b t e) = (Moves-reverse_transfer draws req s).at b t e

  pub Calls-moves : {s t : Store} → Calls s t → R s t
  Calls-moves {s} here = r.stay s
  Calls-moves {s} (next {t} {u} calls call) = r.step s t u (Calls-moves calls) (Call-moves call)
