-- ===== src/Dcn/Rmb/Tests.antt =====
-- Runs of templates/bank_dcn/internal/rmb/coordinator.go.
use jiade.Prelude.{
  ℕ, ◌≡◌, ◌≤◌, refl, String, Bool, true, false, none, List, [], ◌∷◌, length, map, arith,
}
use jiade.Dcn.Rmb.Types.{
  TxStatus, processing, committed, compensated, StepStatus, pending, done, StepRow, TxRequest, Tx,
  has_prefix, reverse_action, is_compensation,
}
use jiade.Dcn.Rmb.Steps.{
  has_original, done_originals, comp_steps, max_no, first_failed, all_done, compensations,
  reset_step,
}
use jiade.Dcn.Rmb.Coordinator.{
  missing, last_first, advance, mark_step, handle_receipt, expire_steps, expire, register,
}
use jiade.Dcn.Rmb.Counts.{originals, asked}
use jiade.Dcn.Rmb.Safety.{
  Statement, mark, mark_late, go_on, expire_now, execute, execute_all, statements_of,
  committed_means, compensations-covered,
}
use jiade.Dcn.Rmb.Settled.{Happening, receipt, timeout, handle, handle_all, compensated_undone}

abbrev transfer : TxRequest
transfer = record {
  tx_id = "t1";
  type_name = "TRANSFER";
  steps =
      record { dcn = "dcn01"; action = "DEBIT"; account_id = 1; amount = "5" }
      ∷ record { dcn = "dcn02"; action = "CREDIT"; account_id = 2; amount = "5" }
      ∷ [];
}

abbrev answer : ℕ → Bool → Happening
answer n d = receipt (record { step_no = n; done = d })

abbrev outcome : Tx → TxStatus × List String
outcome tx = (tx.status, map (λ (st : StepRow). st.action) tx.steps)

abbrev after : List Happening → TxStatus × List String
after es = outcome (handle_all es (register "" transfer none))

both_done :
    after (answer 1 true ∷ answer 2 true ∷ answer 2 false ∷ [])
    ≡ (committed, "DEBIT" ∷ "CREDIT" ∷ [])
unfolding handle_all handle handle_receipt register has_original is_compensation comp_steps all_done
both_done = refl

-- A compensation that fails is sent again three times.
given_up :
    (after
      (answer 1 true ∷ answer 2 false ∷ answer 3 false ∷ answer 3 false ∷ answer 3 false ∷ [])).0
    ≡ processing
unfolding handle_all handle handle_receipt register has_original is_compensation comp_steps all_done
    missing done_originals compensations last_first reverse_action max_no first_failed reset_step
given_up = refl

given_up_last :
    (after (
      answer 1 true
      ∷ answer 2 false
      ∷ answer 3 false
      ∷ answer 3 false
      ∷ answer 3 false
      ∷ answer 3 false
      ∷ [])).0
    ≡ TxStatus.failed
unfolding handle_all handle handle_receipt register has_original is_compensation comp_steps all_done
    missing done_originals compensations last_first reverse_action max_no first_failed reset_step
given_up_last = refl

-- The late receipt of the first step: the second one is taken back once more, the first one never.
late_debit :
    after (answer 2 true ∷ timeout ∷ answer 3 true ∷ answer 1 true ∷ answer 4 true ∷ [])
    ≡ (compensated, "DEBIT" ∷ "CREDIT" ∷ "COMPENSATE_CREDIT" ∷ "COMPENSATE_CREDIT" ∷ [])
unfolding handle_all handle handle_receipt register has_original is_compensation comp_steps all_done
    missing done_originals compensations last_first reverse_action max_no first_failed expire
late_debit = refl

-- The two reads of a receipt before the loop of timeouts compensates, its update after that: the
-- first step is done, and nothing takes it back.
abbrev raced : Tx
raced =
    execute_all (mark 2 false ∷ expire_now ∷ go_on ∷ mark_late 1 ∷ go_on ∷ [])
      (register "" transfer none)

late_race : outcome raced ≡ (compensated, "DEBIT" ∷ "CREDIT" ∷ [])
unfolding execute_all execute register is_compensation comp_steps all_done has_original missing
    done_originals originals expire_steps mark_step advance
late_race = refl

late_race_done : originals done raced.steps ≡ 1
unfolding execute_all execute register is_compensation comp_steps all_done has_original missing
    done_originals originals expire_steps mark_step advance
late_race_done = refl

-- The statements of `raced` are those of the three handlers.
late_race_statements :
    statements_of (record { step_no = 1; done = true }) StepStatus.failed processing
    ≡ mark_late 1 ∷ go_on ∷ []
late_race_statements = refl

-- With three steps, one that is pending when the others are compensated stays done for good.
abbrev three : TxRequest
three = record transfer {
  steps =
      record { dcn = "dcn01"; action = "DEBIT"; account_id = 1; amount = "5" }
      ∷ record { dcn = "dcn02"; action = "CREDIT"; account_id = 2; amount = "4" }
      ∷ record { dcn = "dcn03"; action = "CREDIT"; account_id = 3; amount = "1" }
      ∷ [];
}

third_stays :
    outcome (
      handle_all
        (answer 1 true ∷ answer 2 false ∷ answer 4 true ∷ answer 3 true ∷ [])
        (register "" three none))
    ≡ (compensated, "DEBIT" ∷ "CREDIT" ∷ "CREDIT" ∷ "COMPENSATE_DEBIT" ∷ [])
unfolding handle_all handle handle_receipt register has_original is_compensation comp_steps all_done
    missing done_originals compensations last_first reverse_action max_no first_failed
third_stays = refl

committed_means_example :
    (originals done
        (execute_all (mark 1 true ∷ mark 2 true ∷ go_on ∷ []) (register "" transfer none)).steps
      ≡ 2)
    × (length (
          comp_steps
            (execute_all
              (mark 1 true ∷ mark 2 true ∷ go_on ∷ [])
              (register "" transfer none)).steps)
        ≡ 0)
unfolding execute_all execute register is_compensation comp_steps all_done has_original mark_step
    advance originals
committed_means_example =
    committed_means "" transfer (mark 1 true ∷ mark 2 true ∷ go_on ∷ []) (refl, (refl, tt)) refl

abbrev undoing : List Statement
undoing = mark 1 true ∷ mark 2 false ∷ go_on ∷ mark 3 true ∷ go_on ∷ []

compensations-covered_example :
    (length (comp_steps (execute_all undoing (register "" transfer none)).steps)
      ≤ originals done (execute_all undoing (register "" transfer none)).steps)
    × (asked (execute_all undoing (register "" transfer none)).steps ≡ 2)
unfolding is_compensation has_prefix
compensations-covered_example = compensations-covered "" transfer undoing (refl, (refl, tt))

abbrev undone : List Happening
undone = answer 1 true ∷ answer 2 false ∷ answer 3 true ∷ []

compensated_undone_example :
    (originals pending (handle_all undone (register "" transfer none)).steps ≡ 0)
    × (length (comp_steps (handle_all undone (register "" transfer none)).steps)
        ≡ originals done (handle_all undone (register "" transfer none)).steps)
    × (all_done (comp_steps (handle_all undone (register "" transfer none)).steps) ≡ true)
unfolding handle_all handle handle_receipt register has_original is_compensation comp_steps all_done
    missing done_originals compensations last_first reverse_action max_no first_failed originals
compensated_undone_example =
    compensated_undone "" transfer undone (refl, (refl, tt)) (omega arith) refl
