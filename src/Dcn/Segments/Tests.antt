-- ===== src/Dcn/Segments/Tests.antt =====
-- Runs of templates/bank_dcn/internal/gns/segment.go.
use jiade.Prelude.{◌≡◌, refl, String, some, none, List, [], ◌∷◌, if◌then◌else◌, str_eq}
use jiade.Prelude.Int.{ℤ, pos, ◌+ℤ◌}
use jiade.Prelude.Int64.{wrap64}
use jiade.Dcn.Segments.{
  Segment, pick_segment, pick_from, next_account_id, is_better, Chosen, pick_segment-Chosen,
}

abbrev segment : String → ℤ → String → Segment
segment dcn start status = record {
  dcn = dcn;
  seg_start = start;
  seg_end = start;
  endpoint = "";
  status = status;
}

abbrev three : List Segment
three =
    segment "b" (pos 200) "ACTIVE"
    ∷ segment "a" (pos 100) "ACTIVE"
    ∷ segment "c" (pos 0) "DRAINING"
    ∷ []

abbrev counts : String → ℤ
counts dcn = if str_eq dcn "c" then pos 0 else pos 4

picked : pick_segment counts three ≡ some (segment "a" (pos 100) "ACTIVE")
unfolding pick_segment pick_from is_better
picked = refl

full : next_account_id (segment "a" (pos 100) "ACTIVE") (some (pos 99)) ≡ some (pos 100)
unfolding next_account_id wrap64 ◌+ℤ◌
full = refl

empty_and_full : next_account_id (segment "a" (pos 100) "ACTIVE") none ≡ none
unfolding next_account_id wrap64 ◌+ℤ◌
empty_and_full = refl

pick_segment-Chosen_example : Chosen counts three (pick_segment counts three)
pick_segment-Chosen_example = pick_segment-Chosen counts three
