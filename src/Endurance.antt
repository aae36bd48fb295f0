-- ===== src/Endurance.antt =====
-- The blocks of the endurance test, mfst.c: `endurance_test_read_block` and
-- `endurance_test_write_block`, which pass over the sectors that are flagged as unusable and flag
-- those that fail. What is shown on the screen, key presses and the lock file are left out.
-- Sector numbers times the sector size stay below 2^63. `fuel` bounds the rounds of a loop, `inner`
-- those of the loops that it calls.
pub mod Reads
pub mod Writes
pub mod Sound
pub mod ReadsKeep
pub mod WritesKeep
pub mod Slice
use mfst.Common.{
  ℕ, ◌+◌, ◌-◌, ◌*◌, ◌%◌, ◌^◌, Bool, Option, none, some, List, replicate, if◌then◌else◌,
}
use mfst.Common.Memory.{memcpy}
use mfst.Context.{Context}
use mfst.Device.{St}
use mfst.SectorMap.{is_sector_bad, mark_sector_bad, mark_sector_unwritable}

-- -1 as an unsigned number
abbrev pub minus_one : ℕ
minus_one = 2 ^ 64 - 1

abbrev pub or_minus_one : Option ℕ → ℕ
or_minus_one none = minus_one
or_minus_one (some n) = n

abbrev pub with_ctx : {W : Type 0} → St W → Context → St W
with_ctx st ctx = record st { ctx = ctx }

-- `mark_sector_unwritable` and `mark_sector_bad`, as both functions call them.
unfoldable pub give_up_sector : Context → ℕ → Context
give_up_sector ctx sector = mark_sector_bad (mark_sector_unwritable ctx sector) sector

-- `bytes_since_last_update += n`
unfoldable pub count_shown : Context → ℕ → Context
count_shown ctx n =
    let info = ctx.endurance_test_info in
    let shown = info.screen_counters in
    record ctx {
      endurance_test_info = record info {
        screen_counters = record shown {
          bytes_since_last_update = (shown.bytes_since_last_update + n) % 2 ^ 64;
        };
      };
    }

-- `total_bytes_written += n`
unfoldable pub count_written : Context → ℕ → Context
count_written ctx n =
    let info = ctx.endurance_test_info in
    let stats = info.stats_file_counters in
    record ctx {
      endurance_test_info = record info {
        stats_file_counters = record stats {
          total_bytes_written = (stats.total_bytes_written + n) % 2 ^ 64;
        };
      };
    }

-- The counters of bad sectors of the round, when a write has failed.
unfoldable pub count_failed_write : Context → ℕ → Context
count_failed_write ctx sector =
    let info = ctx.endurance_test_info in
    let new_bad = info.num_new_bad_sectors_this_round in
    record ctx {
      endurance_test_info = record info {
        num_new_bad_sectors_this_round =
            if is_sector_bad ctx sector then new_bad else (new_bad + 1) % 2 ^ 64;
        num_bad_sectors_this_round = (info.num_bad_sectors_this_round + 1) % 2 ^ 64;
      };
    }

-- `memset(buffer + offset, 0, n)`
unfoldable pub clear_bytes : List ℕ → ℕ → ℕ → List ℕ
clear_bytes buffer offset n = memcpy buffer offset (replicate n 0)
