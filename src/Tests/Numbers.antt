-- ===== src/Tests/Numbers.antt =====
-- Random numbers, slices and milestones.
use mathlib.Core.List.{Perm}
use native.Mathlib.Nat.{mod-lt}
use mfst.Common.{
  [], ◌∷◌, ℕ, ◌+◌, ◌*◌, ◌/◌, ◌%◌, ◌^◌, ◌≡◌, ◌≢◌, ◌≤◌, ◌<◌, ◌↔◌, refl, arith, inl, false, ◌++◌,
  replicate,
}
use mfst.Context.{Context, RngState, unset}
use mfst.Rng.{rng_get_random_number, rng_fill_buffer}
use mfst.Rng.Bits.{rng_get_random_number_lem, top_bit_stuck}
use mfst.Rng.Fill.{fill_in_blocks}
use mfst.Slices.{random_list, count_from}
use mfst.Slices.Order.{random_list-perm}
use mfst.Slices.Cover.{InSlice, one_slice}
use mfst.Slices.Seeds.{slice_seed_injective}
use mfst.Rounds.{precompute_thresholds, perform_end_of_round_summary, end_round, another_round}
use mfst.Rounds.Thresholds.{
  MilestonesInOrder, precompute_thresholds_lem, precompute_thresholds-ThresholdsInOrder,
  perform_end_of_round_summary-MilestonesInOrder, last_round_lem,
}
use mfst.Rounds.Summary.{
  reason_for_aborting, cycles_completed, first_failure, failure_0_1, failure_1, failure_10,
  failure_25, failure_50, fifty_percent_failure, print_device_summary, print_device_summary_lem,
}
use mfst.Identical.{block_device, Stat, found, identical, are_devices_identical}
use mfst.Identical.Never.{are_devices_identical-never}
use mfst.Tests.{test_context, test_random}

abbrev test_rng : RngState
test_rng = record { initial_seed = 5; current_seed = 6; seeded = 6; drawn = 0 }

random_list-perm_example : Perm (random_list test_random test_rng).0 (count_from 16 0)
random_list-perm_example = random_list-perm test_random test_rng

one_slice_example :
    (k : ℕ) × InSlice test_context k 2 × ((j : ℕ) → InSlice test_context j 2 → j ≡ k)
one_slice_example = one_slice test_context 2 (omega arith)

abbrev test_slice : ℕ
test_slice = 3

abbrev test_round : ℕ
test_round = 7

slice_seed_injective_example : (test_slice ≡ test_slice) × (test_round ≡ test_round)
slice_seed_injective_example =
    slice_seed_injective 5 test_slice test_slice test_round test_round (omega arith) (omega arith)
      (omega arith) (omega arith) refl

rng_get_random_number_lem_example :
    let r = rng_get_random_number test_random test_rng in
    (r.0 < 2 ^ 32) × (r.0 % 2 ^ 31 ≡ test_random 6 0) × (r.1 ≡ record test_rng { drawn = 1 })
rng_get_random_number_lem_example =
    rng_get_random_number_lem test_random (λ s d. mod-lt (s * 16807 + d * 48271) (omega arith))
      test_rng

top_bit_stuck_example : (rng_get_random_number test_random test_rng).0 / 2 ^ 31 ≡ 1
top_bit_stuck_example =
    top_bit_stuck test_random (λ s d. mod-lt (s * 16807 + d * 48271) (omega arith)) test_rng refl

fill_in_blocks_example :
    rng_fill_buffer test_random (replicate 4 0 ++ replicate 8 1) 12 test_rng ≡ (
      (rng_fill_buffer test_random (replicate 4 0) 4 test_rng).0
          ++ (rng_fill_buffer test_random
              (replicate 8 1)
              8
              (rng_fill_buffer test_random (replicate 4 0) 4 test_rng).1).0,
      (rng_fill_buffer test_random
          (replicate 8 1)
          8
          (rng_fill_buffer test_random (replicate 4 0) 4 test_rng).1).1,
    )
fill_in_blocks_example =
    fill_in_blocks test_random (replicate 4 0) (replicate 8 1) 1 2 test_rng refl refl

precompute_thresholds_lem_example :
    let info = (precompute_thresholds test_context).endurance_test_info in
    ((info.sectors_to_0_1_threshold ≤ 1) ↔ (4 ≤ 1 * 1000))
    × ((info.sectors_to_1_threshold ≤ 1) ↔ (4 ≤ 1 * 100))
    × ((info.sectors_to_10_threshold ≤ 1) ↔ (4 ≤ 1 * 10))
    × ((info.sectors_to_25_threshold ≤ 1) ↔ (4 ≤ 1 * 4))
precompute_thresholds_lem_example = precompute_thresholds_lem test_context 1

test_milestones : MilestonesInOrder (precompute_thresholds test_context).endurance_test_info
unfolding precompute_thresholds
test_milestones = record {
  first = omega arith;
  second = omega arith;
  third = omega arith;
  fourth = omega arith;
  noted_first = inl refl;
  noted_0_1 = inl refl;
  noted_1 = inl refl;
  noted_10 = inl refl;
  noted_25 = inl refl;
}

test_round-le : (precompute_thresholds test_context).endurance_test_info.rounds_completed ≤ unset
unfolding precompute_thresholds
test_round-le = omega arith

perform_end_of_round_summary-MilestonesInOrder_example :
    MilestonesInOrder
      (perform_end_of_round_summary (precompute_thresholds test_context)).endurance_test_info
perform_end_of_round_summary-MilestonesInOrder_example =
    perform_end_of_round_summary-MilestonesInOrder (precompute_thresholds test_context)
      test_round-le (precompute_thresholds-ThresholdsInOrder test_context (omega arith))
      test_milestones

-- Half of the sectors are bad.
abbrev worn_context : Context
worn_context = record test_context {
  endurance_test_info = record (test_context.endurance_test_info) { total_bad_sectors = 2 };
}

worn-stops : another_round (precompute_thresholds worn_context) ≡ false
unfolding another_round precompute_thresholds
worn-stops = refl

last_round_lem_example :
    let info =
      (perform_end_of_round_summary (precompute_thresholds worn_context)).endurance_test_info in
    (info.rounds_to_first_error ≢ unset)
    × (info.rounds_to_0_1_threshold ≢ unset)
    × (info.rounds_to_1_threshold ≢ unset)
    × (info.rounds_to_10_threshold ≢ unset)
    × (info.rounds_to_25_threshold ≢ unset)
last_round_lem_example = last_round_lem worn_context (omega arith) (omega arith) worn-stops

worn-stops_after : another_round (end_round (precompute_thresholds worn_context)) ≡ false
unfolding another_round precompute_thresholds end_round perform_end_of_round_summary
worn-stops_after = refl

print_device_summary_lem_example :
    let last = end_round (precompute_thresholds worn_context) in
    let info = last.endurance_test_info in
    print_device_summary last fifty_percent_failure
    ≡ reason_for_aborting 4
      ∷ cycles_completed 1
      ∷ first_failure info.rounds_to_first_error
      ∷ failure_0_1 info.rounds_to_0_1_threshold
      ∷ failure_1 info.rounds_to_1_threshold
      ∷ failure_10 info.rounds_to_10_threshold
      ∷ failure_25 info.rounds_to_25_threshold
      ∷ failure_50 0
      ∷ []
print_device_summary_lem_example =
    print_device_summary_lem worn_context (omega arith) (omega arith) worn-stops_after

abbrev test_stat : Stat
test_stat = found block_device 17

are_devices_identical-never_example : are_devices_identical test_stat test_stat ≢ identical
are_devices_identical-never_example = are_devices_identical-never test_stat test_stat
