-- ===== src/Commerce/Inventory/Store/Visits.antt =====
-- The loop over candidates in `Reserve` of templates/commerce/internal/inventory/store.go.
use jiade.Prelude.{◌≡◌, refl, ◌∙◌, subst, String, Bool, true, false, List, [], ◌∷◌, str_eq, All}
use jiade.Prelude.Int.{pos, ◌≤ℤ◌}
use jiade.Prelude.Int64.{IsInt64}
use jiade.Commerce.Inventory.Store.Rows.{Outcome, ok, err, LevelRow, Names}
use jiade.Commerce.Inventory.Store.Reserve.{
  ReserveCommand, Filling, visit_candidate, visit_candidates,
}
use jiade.Commerce.Inventory.Store.Sound.{IsSound}
use jiade.Commerce.Inventory.Store.Places.{Distinct, Separate, Current, Current-update_reserved}
use jiade.Commerce.Inventory.Store.Filled.{
  IsFilled, Visited, passed, allocated, visit_candidate-Visited, Visited-IsFilled,
}

IsFilled-trans :
    {command : ReserveCommand} {sku : String} {f g h : Filling}
    → IsFilled command sku f g
    → IsFilled command sku g h
    → IsFilled command sku f h
IsFilled-trans a b = record {
  sound = b.sound;
  distinct = b.distinct;
  same_terminal = b.same_terminal ∙ a.same_terminal;
  amounts = λ s. b.amounts s ∙ a.amounts s;
  others = λ o away k. b.others o away (a.others o away k);
  nonneg = b.nonneg;
  in_range = b.in_range;
}

-- The candidates behind the one that was visited are current still.
Visited-Current :
    {names : Names} {command : ReserveCommand} {sku : String} {c : LevelRow} {f f' : Filling}
    {stop : Bool} (cs : List LevelRow)
    → Visited names command sku c f f' stop
    → All (λ d. str_eq d.location_id c.location_id ≡ false) cs
    → Current sku f.tables.levels cs
    → Current sku f'.tables.levels cs
Visited-Current cs passed a k = k
Visited-Current {sku} {c} {f} cs (allocated free done e p) a k =
    rw p.new_levels (Current-update_reserved sku c.location_id _ f.tables.levels cs a k)

visited_first :
    (names : Names) (command : ReserveCommand) (sku : String) (c : LevelRow) (cs : List LevelRow)
    (f f' : Filling)
    → IsSound f.tables
    → Distinct f.tables.levels
    → Current sku f.tables.levels (c ∷ cs)
    → Separate (c ∷ cs)
    → pos 0 ≤ℤ f.remaining
    → IsInt64 f.remaining
    → ((g : Filling)
        → IsSound g.tables
        → Distinct g.tables.levels
        → Current sku g.tables.levels cs
        → pos 0 ≤ℤ g.remaining
        → IsInt64 g.remaining
        → visit_candidates names command sku cs g ≡ ok f'
        → IsFilled command sku g f')
    → (o : Outcome (Filling × Bool)) → visit_candidate names command sku c f ≡ o
    → elim o [
      | err e ↦ err e
      | ok (g, true) ↦ ok g
      | ok (g, false) ↦ visit_candidates names command sku cs g
    ]
      ≡ ok f'
    → IsFilled command sku f f'
visited_first names command sku c cs f f' h d k a n i rest (err x) v e = absurd (cc)
visited_first names command sku c cs f f' h d k a n i rest (ok (g, true)) v e =
    let filled_one =
      Visited-IsFilled (visit_candidate-Visited names command sku c f g true v) h d (k.0) n i in
    subst (λ (x : Filling). IsFilled command sku f x) (cc) filled_one
visited_first names command sku c cs f f' h d k a n i rest (ok (g, false)) v e =
    let visited = visit_candidate-Visited names command sku c f g false v in
    let one = Visited-IsFilled visited h d (k.0) n i in
    IsFilled-trans one (
      rest g one.sound one.distinct (Visited-Current cs visited (a.0) (k.1)) one.nonneg one.in_range
        e)

pub visit_candidates-IsFilled :
    (names : Names) (command : ReserveCommand) (sku : String) (cs : List LevelRow) (f f' : Filling)
    → visit_candidates names command sku cs f ≡ ok f'
    → IsSound f.tables
    → Distinct f.tables.levels
    → Current sku f.tables.levels cs
    → Separate cs
    → pos 0 ≤ℤ f.remaining
    → IsInt64 f.remaining
    → IsFilled command sku f f'
unfolding visit_candidates
visit_candidates-IsFilled names command sku [] f f' e h d k a n i =
    let same : f ≡ f' = cc in
    subst (λ (x : Filling). IsFilled command sku f x) same
      (record {
        sound = h;
        distinct = d;
        same_terminal = refl;
        amounts = λ s. refl;
        others = λ o away k. k;
        nonneg = n;
        in_range = i;
      })
visit_candidates-IsFilled names command sku (c ∷ cs) f f' e h d k a n i =
    visited_first names command sku c cs f f' h d k a n i
      (λ g s' d' k' n' i' q.
        visit_candidates-IsFilled names command sku cs g f' q s' d' k' (a.1) n' i')
      (visit_candidate names command sku c f) refl e
