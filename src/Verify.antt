-- ===== src/Verify.antt =====
-- The reading phase of `main` in mfst.c: a block is read until its sectors carry the UUID of this
-- device, at most five times, and then compared with what was written. The log, which tells the
-- kinds of mismatch apart, the screen and the statistics file are left out.
pub mod Compare
use mfst.Common.{
  ℕ, zero, suc, ◌+◌, ◌-◌, ◌*◌, ◌/◌, ◌%◌, ◌^◌, Bool, true, false, ◌&&◌, not, Option, none, some,
  List, [], ◌∷◌, if◌then◌else◌, ltb, ◌==◌, get_or,
}
use mfst.Common.Memory.{slice}
use mfst.Context.{Context}
use mfst.Device.{Device, St, is_none}
use mfst.SectorMap.{is_sector_bad, mark_sector_bad, mark_sectors_read}
use mfst.Sector.{
  get_embedded_device_uuid, decode_embedded_sector_number, decode_embedded_round_number,
}
use mfst.Io.{andthen, lseek_or_retry}
use mfst.Endurance.{with_ctx}
use mfst.Endurance.Reads.{endurance_test_read_block}

-- `!memcmp(a, b, n)` on two blocks of `n` bytes
unfoldable pub same_bytes : List ℕ → List ℕ → Bool
same_bytes [] [] = true
same_bytes [] (b ∷ bs) = false
same_bytes (a ∷ as_) [] = false
same_bytes (a ∷ as_) (b ∷ bs) = (a == b) && same_bytes as_ bs

-- The abort reasons of `print_device_summary` for which the reading ends.
abbrev pub read_error : ℕ
read_error = 1

abbrev pub write_error : ℕ
write_error = 2

-- The kinds of mismatch, as they are logged, in the order of the tests.
pub data Mismatch : Type 0 where
  all_00s all_ffs crc32_mismatch device_mangling write_failure address_decoding_failure generic :
      Mismatch

abbrev pub all_bytes : ℕ → List ℕ → Bool
all_bytes v [] = true
all_bytes v (b ∷ bs) = (b == v) && all_bytes v bs

module _ (crc : ℕ → List ℕ → ℕ) where
  unfoldable pub mismatch_kind : Context → ℕ → List ℕ → Mismatch
  mismatch_kind ctx sector found =
      if all_bytes 0 found
      then all_00s
      else if all_bytes 255 found
      then all_ffs
      else if not (crc 0 found == 0)
      then crc32_mismatch
      else if not (same_bytes ctx.device_info.device_uuid (get_embedded_device_uuid found))
      then device_mangling
      else if not (decode_embedded_round_number found == ctx.endurance_test_info.rounds_completed)
      then write_failure
      else if not (decode_embedded_sector_number found == sector)
      then address_decoding_failure
      else generic

  -- The first pass: whether one of the sectors left, from number `i` of the block on, is good but
  -- carries the UUID of another device.
  unfoldable pub mangled : Context → ℕ → List ℕ → ℕ → ℕ → Bool
  mangled ctx cur_sector found zero i = false
  mangled ctx cur_sector found (suc left) i =
      let size = ctx.device_info.sector_size in
      let sector = slice found (i * size) size in
      let rest = mangled ctx cur_sector found left (i + 1) in
      let other = not (same_bytes ctx.device_info.device_uuid (get_embedded_device_uuid sector)) in
      if not (is_sector_bad ctx (cur_sector + i)) && (crc 0 sector == 0) && other
      then true
      else rest

  module _ {W : Type 0} (dev : Device W) where
    -- The `do` loop, with the readings left of five: the abort reason, or the data.
    unfoldable pub read_until_ours :
        ℕ → ℕ → ℕ → ℕ → List ℕ → St W → Option ((Option ℕ × List ℕ) × St W)
    read_until_ours fuel zero cur_sector sectors found st = some ((none, found), st)
    read_until_ours fuel (suc left) cur_sector sectors found st =
        andthen (endurance_test_read_block dev fuel fuel cur_sector sectors found st) λ ret st.
          elim ret.0 [
            | false ↦ some ((some read_error, ret.1), st)
            | true ↦ elim (mangled st.ctx cur_sector ret.1 sectors 0) [
              | false ↦ some ((none, ret.1), st)
              | true ↦ elim (left == 0) [
                | true ↦ some ((none, ret.1), st)
                | false ↦
                    andthen
                      (lseek_or_retry dev fuel true (cur_sector * st.ctx.device_info.sector_size)
                        st)
                      λ offset st. elim (is_none offset) [
                        | true ↦ some ((some write_error, ret.1), st)
                        | false ↦ read_until_ours fuel left cur_sector sectors ret.1 st
                      ]
              ]
            ]
          ]

-- What follows the comparison of a sector: the counters of the round, and the sector map.
unfoldable pub after_compare : Bool → Context → ℕ → Context
after_compare true ctx sector =
    let info = ctx.endurance_test_info in
    let now_good = info.num_good_sectors_this_round in
    record ctx {
      endurance_test_info = record info {
        num_good_sectors_this_round =
            if is_sector_bad ctx sector then (now_good + 1) % 2 ^ 64 else now_good;
      };
    }
after_compare false ctx sector =
    let info = ctx.endurance_test_info in
    let new_bad = info.num_new_bad_sectors_this_round in
    mark_sector_bad
      (record ctx {
        endurance_test_info = record info {
          num_new_bad_sectors_this_round =
              if is_sector_bad ctx sector then new_bad else (new_bad + 1) % 2 ^ 64;
          num_bad_sectors_this_round = (info.num_bad_sectors_this_round + 1) % 2 ^ 64;
        };
      })
      sector

unfoldable pub compare_sector : Context → ℕ → List ℕ → List ℕ → Context
compare_sector ctx sector expected found = after_compare (same_bytes expected found) ctx sector

-- The loop over the sectors of a block, from number `i` on, with those left.
unfoldable pub compare_sectors : ℕ → List ℕ → List ℕ → ℕ → ℕ → Context → Context
compare_sectors cur_sector expected found zero i ctx = ctx
compare_sectors cur_sector expected found (suc left) i ctx =
    let size = ctx.device_info.sector_size in
    compare_sectors cur_sector expected found left (i + 1) (
      compare_sector ctx (cur_sector + i) (slice expected (i * size) size)
        (slice found (i * size) size))

-- `mark_sectors_read`, the count of bytes read, and the comparison.
unfoldable pub accept_block : Context → ℕ → ℕ → List ℕ → List ℕ → Context
accept_block ctx cur_sector sectors expected found =
    let marked = mark_sectors_read ctx cur_sector (cur_sector + sectors) in
    let info = marked.endurance_test_info in
    let stats = info.stats_file_counters in
    let bytes = sectors * ctx.device_info.sector_size in
    compare_sectors cur_sector expected found sectors 0 (record marked {
      endurance_test_info = record info {
        stats_file_counters = record stats {
          total_bytes_read = (stats.total_bytes_read + bytes) % 2 ^ 64;
        };
      };
    })
