-- ===== src/Tests/Blocks.antt =====
-- The contents of sectors, the copies that identify the device, and the blocks of the test.
use mfst.Common.{
  ℕ, zero, suc, ◌+◌, ◌≡◌, refl, arith, true, false, inr, List, replicate, length, get_or,
}
use mfst.Common.Memory.{slice}
use native.Mathlib.Nat.{mod-lt}
use mfst.Verify.{all_bytes}
use mfst.Sector.{
  prepare_sector, embed_sector_number, embed_round_number, embed_device_uuid, embed_uuid_from,
  embed_crc32c, get_sector_number_xor_val, get_round_num_xor_val, prepare_endurance_test_block,
}
use mfst.Sector.Prepare.{Holds}
use mfst.Sector.Blocks.{prepare_endurance_test_block_lem}
use mfst.Buffers.{update_bod_buffer, update_mod_buffer}
use mfst.Buffers.Mirror.{
  written, Mirrors, update_bod_buffer_lem, update_mod_buffer_lem, update_mod_buffer-spanning,
}
use mfst.Io.Keeps.{Ends}
use mfst.Endurance.Sound.{SoundSt}
use mfst.Endurance.Reads.{endurance_test_read_block}
use mfst.Endurance.Writes.{endurance_test_write_block}
use mfst.Endurance.ReadsKeep.{endurance_test_read_block-Sound}
use mfst.Endurance.WritesKeep.{endurance_test_write_block-Sound}
use mfst.Verify.{accept_block}
use mfst.Verify.Compare.{Tally, accept_block-Tally}
use mfst.Tests.{
  test_context, test_context-Sound, test_device, test_state, replicate-IsBytes, test_crc,
}

abbrev two_sectors : List ℕ
two_sectors = replicate 1024 165

abbrev zeroes : ℕ → ℕ
zeroes i = 0

prepare_endurance_test_block_lem_example :
    Holds test_crc 512 3 0
      (replicate 16 7)
      (slice (prepare_endurance_test_block test_crc test_context two_sectors 2 2) 512 512)
prepare_endurance_test_block_lem_example =
    prepare_endurance_test_block_lem test_crc (λ s d. mod-lt (length d) (omega arith)) test_context
      two_sectors 2 2 1 (omega arith) (omega arith) (omega arith)
      (replicate-IsBytes 1024 165 (omega arith)) (omega arith) (omega arith) refl

zeroes-Mirrors : (start : ℕ) → Mirrors zeroes start 8 (replicate 8 0)
zeroes-Mirrors start = (refl, λ i h. get_or-replicate 8 i)
  where
    get_or-replicate : (n i : ℕ) → get_or (replicate n 0) i 0 ≡ zeroes (start + i)
    get_or-replicate zero i = refl
    get_or-replicate (suc n) zero = refl
    get_or-replicate (suc n) (suc i) = get_or-replicate n i

update_bod_buffer_lem_example :
    Mirrors
      (written zeroes 6 (replicate 4 9))
      0
      8
      (update_bod_buffer true test_context 6 (replicate 4 9) 4).device_info.bod_buffer
update_bod_buffer_lem_example =
    update_bod_buffer_lem true test_context zeroes 6 (replicate 4 9) (zeroes-Mirrors 0)

update_mod_buffer_lem_example :
    Mirrors
      (written zeroes 1022 (replicate 4 9))
      1024
      8
      (update_mod_buffer true test_context 1022 (replicate 4 9) 4).device_info.mod_buffer
update_mod_buffer_lem_example =
    update_mod_buffer_lem true test_context zeroes 1022 (replicate 4 9) (zeroes-Mirrors 1024)
      (omega arith) (omega arith) (inr (omega arith))

update_mod_buffer-spanning_example :
    update_mod_buffer true test_context 1020 (replicate 20 9) 20 ≡ test_context
update_mod_buffer-spanning_example =
    update_mod_buffer-spanning true test_context 1020 (replicate 20 9) (omega arith) (omega arith)
      (omega arith)

endurance_test_read_block-Sound_example :
    Ends
      (SoundSt 4 512)
      (endurance_test_read_block test_device 9 9 0 4 two_sectors (test_state test_context 0))
endurance_test_read_block-Sound_example =
    endurance_test_read_block-Sound test_device 9 9 4 512 0 4 two_sectors
      (test_state test_context 0) (omega arith) test_context-Sound

endurance_test_write_block-Sound_example :
    Ends
      (SoundSt 4 512)
      (endurance_test_write_block test_device 9 9 0 0 1 2 two_sectors (test_state test_context 1))
endurance_test_write_block-Sound_example =
    endurance_test_write_block-Sound test_device 9 9 0 0 4 512 1 2 two_sectors
      (test_state test_context 1) (omega arith) test_context-Sound

accept_block-Tally_example :
    Tally 4 512 1 (accept_block test_context 1 2 two_sectors (replicate 1024 0))
accept_block-Tally_example =
    accept_block-Tally test_context 1 2 two_sectors (replicate 1024 0) (omega arith) (omega arith)
      (record { sound = test_context-Sound; balance = refl })

abbrev no_crc : ℕ → List ℕ → ℕ
no_crc s d = 0

-- Sector 3, found where sector 2 should be.
abbrev misplaced : List ℕ
misplaced = prepare_sector no_crc test_context 3 (replicate 512 165)

misplaced-not_00s : all_bytes 0 misplaced ≡ false
unfolding prepare_sector embed_sector_number embed_round_number embed_device_uuid embed_uuid_from
    embed_crc32c get_sector_number_xor_val get_round_num_xor_val
misplaced-not_00s = refl

misplaced-not_ffs : all_bytes 255 misplaced ≡ false
unfolding prepare_sector embed_sector_number embed_round_number embed_device_uuid embed_uuid_from
    embed_crc32c get_sector_number_xor_val get_round_num_xor_val
misplaced-not_ffs = refl
