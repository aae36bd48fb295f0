-- ===== src/Rounds.antt =====
-- The end of a round, mfst.c: the milestones of bad sectors (`main` computes them before the first
-- round, `perform_end_of_round_summary` notes the round in which each is passed) and the test with
-- which `main` goes on to another round. What is written to the log is left out.
pub mod Thresholds
pub mod Summary
use mfst.Common.{
  ℕ, ◌+◌, ◌*◌, ◌/◌, ◌%◌, ◌^◌, Bool, true, false, ◌&&◌, ◌||◌, if◌then◌else◌, ltb, leb, ◌==◌,
}
use mfst.Context.{Context, EnduranceTestInfo, unset}

-- n / parts, rounded up as `main` does it: divide, then count one more for a remainder.
unfoldable pub threshold : ℕ → ℕ → ℕ
threshold n parts = if n % parts == 0 then n / parts else n / parts + 1

unfoldable pub precompute_thresholds : Context → Context
precompute_thresholds ctx =
    let n = ctx.device_info.num_physical_sectors in
    record ctx {
      endurance_test_info = record (ctx.endurance_test_info) {
        sectors_to_0_1_threshold = threshold n 1000;
        sectors_to_1_threshold = threshold n 100;
        sectors_to_10_threshold = threshold n 10;
        sectors_to_25_threshold = threshold n 4;
      };
    }

-- One `if` of the summary: the round is noted unless one was noted before.
unfoldable pub note : Bool → ℕ → ℕ → ℕ
note passed round rounds_to = if (rounds_to == unset) && passed then round else rounds_to

abbrev pub summarise : EnduranceTestInfo → EnduranceTestInfo
summarise info =
    let bad = info.total_bad_sectors in
    let round = info.rounds_completed in
    record info {
      rounds_to_first_error = note (ltb 0 bad) round info.rounds_to_first_error;
      rounds_to_0_1_threshold =
          note (leb info.sectors_to_0_1_threshold bad) round info.rounds_to_0_1_threshold;
      rounds_to_1_threshold =
          note (leb info.sectors_to_1_threshold bad) round info.rounds_to_1_threshold;
      rounds_to_10_threshold =
          note (leb info.sectors_to_10_threshold bad) round info.rounds_to_10_threshold;
      rounds_to_25_threshold =
          note (leb info.sectors_to_25_threshold bad) round info.rounds_to_25_threshold;
    }

unfoldable pub perform_end_of_round_summary : Context → Context
perform_end_of_round_summary ctx =
    let info = ctx.endurance_test_info in
    if (info.num_new_bad_sectors_this_round == 0) && (info.total_bad_sectors == 0)
    then ctx
    else record ctx { endurance_test_info = summarise info }

-- The `for` test of `main`.
unfoldable pub another_round : Context → Bool
another_round ctx =
    ltb ctx.endurance_test_info.total_bad_sectors (ctx.device_info.num_physical_sectors / 2)

-- The end of a round of `main`: the summary, and the increment of the `for`.
unfoldable pub end_round : Context → Context
end_round ctx =
    let summed = perform_end_of_round_summary ctx in
    record summed {
      endurance_test_info = record (summed.endurance_test_info) {
        rounds_completed = (summed.endurance_test_info.rounds_completed + 1) % 2 ^ 64;
      };
    }
