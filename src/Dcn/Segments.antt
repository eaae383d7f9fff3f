-- ===== src/Dcn/Segments.antt =====
-- The segments of accounts that the name service hands out:
-- templates/bank_dcn/internal/gns/segment.go. The map of counts is a function that is 0 where the map
-- has no key; an int is an int64.
use mathlib.Core.List.{Memᴰ}
use mathlib.Core.List.Memᴰ.{head, tail}
use jiade.Prelude.{
  ℕ, ◌+◌, ◌==◌, ltb, ◌≡◌, refl, ap, String, Bool, true, false, not, ◌&&◌, ◌||◌, Option, none, some,
  List, [], ◌∷◌, All, str_eq, arith, if◌then◌else◌, Bool-cases, inl, inr, ◌⊎◌,
}
use jiade.Prelude.Int.{ℤ, pos, pos_part, neg_part, ltb_ℤ, eqb_ℤ, ◌≤ℤ◌, ◌<ℤ◌, ◌+ℤ◌}
use jiade.Prelude.Int64.{add64, wrap64, IsInt64}
mod Tests

pub record Segment : Type 0 where
  pub dcn : String
  pub seg_start : ℤ
  pub seg_end : ℤ
  pub endpoint : String
  pub status : String

abbrev pub is_active : Segment → Bool
is_active s = str_eq s.status "ACTIVE"

-- The test of the loop, for a best segment that was found.
unfoldable pub is_better : (String → ℤ) → Segment → Segment → Bool
is_better counts s best =
    ltb_ℤ (counts s.dcn) (counts best.dcn)
    || (eqb_ℤ (counts s.dcn) (counts best.dcn) && ltb_ℤ s.seg_start best.seg_start)

abbrev better_of : (String → ℤ) → Segment → Option Segment → Option Segment
better_of counts s none = some s
better_of counts s (some best) = if is_better counts s best then some s else some best

-- The loop; `none` is `found == false`.
unfoldable pub pick_from : (String → ℤ) → List Segment → Option Segment → Option Segment
pick_from counts [] best = best
pick_from counts (s ∷ rest) best =
    pick_from counts rest (if is_active s then better_of counts s best else best)

unfoldable pub pick_segment : (String → ℤ) → List Segment → Option Segment
unfolding pick_from
pick_segment counts segs = pick_from counts segs none

-- `maxID` is given where `hasMax` is true.
abbrev following : Segment → Option ℤ → ℤ
following seg none = add64 seg.seg_start (pos 1)
following seg (some m) = add64 m (pos 1)

unfoldable pub next_account_id : Segment → Option ℤ → Option ℤ
next_account_id seg max_id =
    let id = following seg max_id in if ltb_ℤ seg.seg_end id then none else some id

-- `best` comes before `s` in the order of counts, then of starts, or stands level with it.
abbrev pub IsBefore : (String → ℤ) → Segment → Segment → Type 0
IsBefore counts best s = is_better counts s best ≡ false

-- What the loop has found among the segments behind it.
unfoldable pub Chosen : (String → ℤ) → List Segment → Option Segment → Type 0
Chosen counts segs none = All (λ s. is_active s ≡ false) segs
Chosen counts segs (some best) =
    Memᴰ best segs
    × (is_active best ≡ true)
    × All (λ s. (is_active s ≡ false) ⊎ IsBefore counts best s) segs

less : ℕ → ℕ → ℕ → ℕ → Bool
less p n q m = ltb (p + m) (q + n)

same : ℕ → ℕ → ℕ → ℕ → Bool
same p n q m = p == q && n == m

-- The two parts of each number stand apart here.
lexicographic :
    (p n q m r o : ℕ) (sa sb ss : Bool)
    → (less p n q m || (same p n q m && sa)) ≡ true
    → (less r o q m || (same r o q m && sb)) ≡ false
    → (sa ≡ true → sb ≡ false → ss ≡ false)
    → (less r o p n || (same r o p n && ss)) ≡ false
unfolding less same
lexicographic p n q m r o sa sb ss h k t = ground (arith, t)

starts : (p n q m r o : ℕ) → less p n q m ≡ true → less r o q m ≡ false → less r o p n ≡ false
unfolding less
starts p n q m r o h k = ground arith

-- The order is transitive, and a segment that is better is not behind.
IsBefore-trans :
    (counts : String → ℤ) (a b s : Segment)
    → is_better counts a b ≡ true
    → IsBefore counts b s
    → IsBefore counts a s
unfolding is_better less same
IsBefore-trans counts a b s h k =
    lexicographic (pos_part (counts a.dcn)) (neg_part (counts a.dcn)) (pos_part (counts b.dcn))
      (neg_part (counts b.dcn)) (pos_part (counts s.dcn)) (neg_part (counts s.dcn))
      (ltb_ℤ a.seg_start b.seg_start) (ltb_ℤ s.seg_start b.seg_start)
      (ltb_ℤ s.seg_start a.seg_start) h k
      (starts (pos_part a.seg_start) (neg_part a.seg_start) (pos_part b.seg_start)
        (neg_part b.seg_start) (pos_part s.seg_start) (neg_part s.seg_start))

better_refl : (c n : ℤ) → (ltb_ℤ c c || (eqb_ℤ c c && ltb_ℤ n n)) ≡ false
better_refl c n = ground arith

IsBefore-refl : (counts : String → ℤ) (a : Segment) → IsBefore counts a a
unfolding is_better
IsBefore-refl counts a = better_refl (counts a.dcn) a.seg_start

module _ {P Q : Segment → Type 0} where
  All-map : ((s : Segment) → P s → Q s) → (xs : List Segment) → All P xs → All Q xs
  All-map f [] h = tt
  All-map f (x ∷ xs) h = (f x (h.0), All-map f xs (h.1))

-- What one round of the loop keeps.
module _ (counts : String → ℤ) where
  Chosen-skip :
      (s : Segment) (segs : List Segment) (best : Option Segment)
      → is_active s ≡ false
      → Chosen counts segs best
      → Chosen counts (s ∷ segs) best
  unfolding Chosen
  Chosen-skip s segs none e c = (e, c)
  Chosen-skip s segs (some b) e (m, a, c) = (tail m, a, (inl e, c))

  Chosen-first :
      (s : Segment) (segs : List Segment)
      → is_active s ≡ true
      → Chosen counts segs none
      → Chosen counts (s ∷ segs) (some s)
  unfolding Chosen
  Chosen-first s segs e c =
      (head refl, e, (inr (IsBefore-refl counts s), All-map (λ x h. inl h) segs c))

  Chosen-better :
      (s b : Segment) (segs : List Segment)
      → is_active s ≡ true
      → is_better counts s b ≡ true
      → Chosen counts segs (some b)
      → Chosen counts (s ∷ segs) (some s)
  unfolding Chosen
  Chosen-better s b segs e h (m, a, c) = (
    head refl,
    e,
    (
      inr (IsBefore-refl counts s),
      All-map (λ x k. elim k [ inl i ↦ inl i | inr j ↦ inr (IsBefore-trans counts s b x h j) ]) segs
          c,
    ),
  )

  Chosen-kept :
      (s b : Segment) (segs : List Segment)
      → is_better counts s b ≡ false
      → Chosen counts segs (some b)
      → Chosen counts (s ∷ segs) (some b)
  unfolding Chosen
  Chosen-kept s b segs h (m, a, c) = (tail m, a, (inr h, c))

  Chosen-round :
      (s : Segment) (segs : List Segment) (best : Option Segment)
      → Chosen counts segs best
      → Chosen counts (s ∷ segs) (if is_active s then better_of counts s best else best)
  Chosen-round s segs best c = elim (Bool-cases (is_active s)) [
    | inr e ↦ rw e (Chosen-skip s segs best e c)
    | inl e ↦ rw e (taken best e c)
  ]
    where
      taken :
          (best : Option Segment)
          → is_active s ≡ true
          → Chosen counts segs best
          → Chosen counts (s ∷ segs) (better_of counts s best)
      taken none e c = Chosen-first s segs e c
      taken (some b) e c = elim (Bool-cases (is_better counts s b)) [
        | inl h ↦ rw h (Chosen-better s b segs e h c)
        | inr h ↦ rw h (Chosen-kept s b segs h c)
      ]

  -- The segments that the loop has met, the last one first.
  met : List Segment → List Segment → List Segment
  met [] behind = behind
  met (s ∷ rest) behind = met rest (s ∷ behind)

  pick_from-Chosen :
      (rest behind : List Segment) (best : Option Segment)
      → Chosen counts behind best
      → Chosen counts (met rest behind) (pick_from counts rest best)
  unfolding pick_from met
  pick_from-Chosen [] behind best c = c
  pick_from-Chosen (s ∷ rest) behind best c =
      pick_from-Chosen rest (s ∷ behind) (if is_active s then better_of counts s best else best)
        (Chosen-round s behind best c)

  All-met-behind :
      (P : Segment → Type 0) (rest behind : List Segment) → All P (met rest behind) → All P behind
  unfolding met
  All-met-behind P [] behind h = h
  All-met-behind P (s ∷ rest) behind h = (All-met-behind P rest (s ∷ behind) h).1

  All-met :
      (P : Segment → Type 0) (rest behind : List Segment) → All P (met rest behind) → All P rest
  unfolding met
  All-met P [] behind h = tt
  All-met P (s ∷ rest) behind h =
      ((All-met-behind P rest (s ∷ behind) h).0, All-met P rest (s ∷ behind) h)

  in_either :
      (x s : Segment) (rest behind : List Segment)
      → Memᴰ x rest ⊎ Memᴰ x (s ∷ behind)
      → Memᴰ x (s ∷ rest) ⊎ Memᴰ x behind
  in_either x s rest behind (inl m) = inl (tail m)
  in_either x s rest behind (inr (head e)) = inl (head e)
  in_either x s rest behind (inr (tail m)) = inr m

  met-in :
      (x : Segment) (rest behind : List Segment)
      → Memᴰ x (met rest behind)
      → Memᴰ x rest ⊎ Memᴰ x behind
  unfolding met
  met-in x [] behind h = inr h
  met-in x (s ∷ rest) behind h = in_either x s rest behind (met-in x rest (s ∷ behind) h)

  only_left : (x : Segment) (segs : List Segment) → Memᴰ x segs ⊎ Memᴰ x [] → Memᴰ x segs
  only_left x segs (inl m) = m
  only_left x segs (inr m) = elim m [ ]

  Chosen-met :
      (segs : List Segment) (best : Option Segment)
      → Chosen counts (met segs []) best
      → Chosen counts segs best
  unfolding Chosen
  Chosen-met segs none c = All-met (λ s. is_active s ≡ false) segs [] c
  Chosen-met segs (some b) (m, a, c) = (
    only_left b segs (met-in b segs [] m),
    a,
    All-met (λ s. (is_active s ≡ false) ⊎ IsBefore counts b s) segs [] c,
  )

-- `PickSegment` finds a segment exactly when one is active, and the one that it finds is one of them
-- and stands before or level with every active segment, by the number of accounts and then by the start.
pub pick_segment-Chosen :
    (counts : String → ℤ) (segs : List Segment) → Chosen counts segs (pick_segment counts segs)
unfolding pick_segment Chosen
pick_segment-Chosen counts segs =
    Chosen-met counts segs (pick_from counts segs none) (pick_from-Chosen counts segs [] none tt)
