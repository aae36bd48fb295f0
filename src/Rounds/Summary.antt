-- ===== src/Rounds/Summary.antt =====
-- `print_device_summary` of mfst.c: the lines of the final summary, and which of them are shown: the
-- loop that joins them ends at the first one that is missing. The log is left out, and so is the
-- text, cut at the size of `msg_buffer`: a line is its kind and its number.
use mfst.Common.{
  ℕ, ◌+◌, ◌%◌, ◌^◌, ◌-◌, ◌≡◌, ◌≢◌, ◌≤◌, ◌<◌, refl, sym, ◌∙◌, arith, false, ◌&&◌, Bool-cases, inl,
  inr, Option, none, some, List, [], ◌∷◌, if◌then◌else◌, ltb, ◌==◌,
}
use mfst.Context.{Context, unset}
use mfst.Rounds.{precompute_thresholds, perform_end_of_round_summary, end_round, another_round}
use mfst.Rounds.Thresholds.{last_round_lem}

pub data Line : Type 0 where
  reason_for_aborting cycles_completed first_failure failure_0_1 failure_1 failure_10 failure_25
        failure_50 :
      (n : ℕ) → Line

abbrev pub fifty_percent_failure : ℕ
fifty_percent_failure = 4

-- A milestone that has been reached.
unfoldable pub milestone : (ℕ → Line) → ℕ → Option Line
milestone kind rounds = if rounds == unset then none else some (kind rounds)

-- `messages`, with the index into `abort_reasons`. Without a round completed, one less is -1.
unfoldable pub out_messages : Context → ℕ → List (Option Line)
out_messages ctx abort_reason =
    let info = ctx.endurance_test_info in
    let last = if info.rounds_completed == 0 then unset else info.rounds_completed - 1 in
    some (reason_for_aborting (if ltb 5 abort_reason then 0 else abort_reason))
    ∷ some (cycles_completed info.rounds_completed)
    ∷ milestone first_failure info.rounds_to_first_error
    ∷ milestone failure_0_1 info.rounds_to_0_1_threshold
    ∷ milestone failure_1 info.rounds_to_1_threshold
    ∷ milestone failure_10 info.rounds_to_10_threshold
    ∷ milestone failure_25 info.rounds_to_25_threshold
    ∷ (if abort_reason == fifty_percent_failure then some (failure_50 last) else none)
    ∷ []

unfoldable pub up_to_missing : List (Option Line) → List Line
up_to_missing [] = []
up_to_missing (none ∷ lines) = []
up_to_missing (some line ∷ lines) = line ∷ up_to_missing lines

unfoldable pub print_device_summary : Context → ℕ → List Line
print_device_summary ctx abort_reason = up_to_missing (out_messages ctx abort_reason)

milestone-reached : (kind : ℕ → Line) (n : ℕ) → n ≢ unset → milestone kind n ≡ some (kind n)
unfolding milestone
milestone-reached kind n h = let e : (n == unset) ≡ false = ground (arith, h) in rw e refl

-- The summary of a round keeps the counts.
summary_keeps :
    (ctx : Context)
    → let info = (perform_end_of_round_summary ctx).endurance_test_info in
      (info.rounds_completed ≡ ctx.endurance_test_info.rounds_completed)
      × (another_round (end_round ctx) ≡ another_round ctx)
unfolding perform_end_of_round_summary another_round end_round
summary_keeps ctx =
    let info = ctx.endurance_test_info in
    elim (Bool-cases
      ((info.num_new_bad_sectors_this_round == 0) && (info.total_bad_sectors == 0))) [
        | inl e ↦ rw e (refl, refl)
        | inr e ↦ rw e (refl, refl)
      ]

-- When the test stops for bad sectors after a round, with the summary of that round taken, the
-- final summary has all of its eight lines, with the reason, the number of cycles that includes
-- this round, the five milestones, none of which is missing, and this round as that of the failure
-- of half of the sectors; for a device of at least two sectors and fewer than 2^64 - 1 rounds.
pub print_device_summary_lem :
    (ctx : Context)
    → 2 ≤ ctx.device_info.num_physical_sectors
    → ctx.endurance_test_info.rounds_completed < unset
    → another_round (end_round (precompute_thresholds ctx)) ≡ false
    → let last = end_round (precompute_thresholds ctx) in
      let info = last.endurance_test_info in
      print_device_summary last fifty_percent_failure
      ≡ reason_for_aborting fifty_percent_failure
        ∷ cycles_completed (ctx.endurance_test_info.rounds_completed + 1)
        ∷ first_failure info.rounds_to_first_error
        ∷ failure_0_1 info.rounds_to_0_1_threshold
        ∷ failure_1 info.rounds_to_1_threshold
        ∷ failure_10 info.rounds_to_10_threshold
        ∷ failure_25 info.rounds_to_25_threshold
        ∷ failure_50 ctx.endurance_test_info.rounds_completed
        ∷ []
unfolding print_device_summary out_messages up_to_missing end_round precompute_thresholds
print_device_summary_lem ctx two small stop =
    let started = precompute_thresholds ctx in
    let kept = summary_keeps started in
    let info = (perform_end_of_round_summary started).endurance_test_info in
    let round = ctx.endurance_test_info.rounds_completed in
    let m = last_round_lem ctx two small (sym kept.1 ∙ stop) in
    let same : info.rounds_completed ≡ round = kept.0 in
    let wrapped : (round + 1) % 2 ^ 64 ≡ round + 1 = omega (arith, small) in
    let later : (round + 1 == 0) ≡ false = ground arith in
    let before : round + 1 - 1 ≡ round = omega arith in
    rw
      (
        milestone-reached first_failure info.rounds_to_first_error m.0,
        milestone-reached failure_0_1 info.rounds_to_0_1_threshold m.1,
        milestone-reached failure_1 info.rounds_to_1_threshold m.2,
        milestone-reached failure_10 info.rounds_to_10_threshold m.3,
        milestone-reached failure_25 info.rounds_to_25_threshold m.4,
        same,
        wrapped,
        later,
        before,
      )
      refl
