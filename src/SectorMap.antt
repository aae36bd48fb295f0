-- ===== src/SectorMap.antt =====
-- The sector map of mfst.c: one byte of flags for each sector, and the functions that set, clear
-- and scan the flags. The calls that redraw the display are left out.
pub mod Flags
pub mod Counts
pub mod Scan
pub mod Marks
use mfst.Common.{ℕ, zero, suc, ◌+◌, ◌-◌, ◌%◌, ◌^◌, min, bit_and, bit_or, ◌==◌, if◌then◌else◌}
use mfst.Common.{Bool, true, false, not, List, [], ◌∷◌, get_or, set}
use mfst.Context.{Context, EnduranceTestInfo}

abbrev pub do_not_use : ℕ
do_not_use = 0x10

abbrev pub failed_this_round : ℕ
failed_this_round = 0x08

abbrev pub read_this_round : ℕ
read_this_round = 0x04

abbrev pub written_this_round : ℕ
written_this_round = 0x02

abbrev pub failed : ℕ
failed = 0x01

abbrev pub has_flag : ℕ → ℕ → Bool
has_flag flag entry = not (bit_and entry flag == 0)

-- The context with its sector map replaced.
abbrev pub with_map : Context → List ℕ → Context
with_map ctx m = record ctx {
  endurance_test_info = record (ctx.endurance_test_info) { sector_map = m };
}

-- `for(i = ...) sector_map[i] |= flags`, with the rounds left.
unfoldable pub or_range : ℕ → ℕ → ℕ → List ℕ → List ℕ
or_range flags zero i m = m
or_range flags (suc left) i m = or_range flags left (i + 1) (set m i (bit_or (get_or m i 0) flags))

-- `for(j = ...) sector_map[j] &= flags`, with the rounds left.
unfoldable pub and_range : ℕ → ℕ → ℕ → List ℕ → List ℕ
and_range flags zero j m = m
and_range flags (suc left) j m =
    and_range flags left (j + 1) (set m j (bit_and (get_or m j 0) flags))

-- `i < end_sector && i < num_physical_sectors` holds for this many rounds from `start_sector`.
abbrev pub rounds : Context → ℕ → ℕ → ℕ
rounds ctx start_sector end_sector =
    min end_sector ctx.device_info.num_physical_sectors - start_sector

unfoldable pub mark_sectors_written : Context → ℕ → ℕ → Context
mark_sectors_written ctx start_sector end_sector = with_map ctx (
    or_range written_this_round (rounds ctx start_sector end_sector) start_sector
      ctx.endurance_test_info.sector_map)

unfoldable pub mark_sectors_read : Context → ℕ → ℕ → Context
mark_sectors_read ctx start_sector end_sector = with_map ctx (
    or_range read_this_round (rounds ctx start_sector end_sector) start_sector
      ctx.endurance_test_info.sector_map)

unfoldable pub is_sector_bad : Context → ℕ → Bool
is_sector_bad ctx sector_num =
    has_flag failed (get_or ctx.endurance_test_info.sector_map sector_num 0)

unfoldable pub mark_sector_bad : Context → ℕ → Context
mark_sector_bad ctx sector_num =
    let info = ctx.endurance_test_info in
    let entry = get_or info.sector_map sector_num 0 in
    record ctx {
      endurance_test_info = record info {
        total_bad_sectors =
            if has_flag failed entry
            then info.total_bad_sectors
            else (info.total_bad_sectors + 1) % 2 ^ 64;
        sector_map =
            set info.sector_map sector_num (bit_or entry (bit_or failed_this_round failed));
      };
    }

unfoldable pub mark_sector_unwritable : Context → ℕ → Context
mark_sector_unwritable ctx sector_num =
    let m = ctx.endurance_test_info.sector_map in
    with_map ctx (set m sector_num (bit_or (get_or m sector_num 0) do_not_use))

unfoldable pub reset_sector_map : Context → Context
reset_sector_map ctx = with_map ctx (
    and_range (bit_or do_not_use failed) ctx.device_info.num_physical_sectors 0
      ctx.endurance_test_info.sector_map)

unfoldable pub reset_sector_map_partial : Context → ℕ → ℕ → Context
reset_sector_map_partial ctx start end =
    with_map ctx
      (and_range (bit_or do_not_use failed) (end - start) start ctx.endurance_test_info.sector_map)

-- `for(out = 0; out < max_sectors && test(sector_map[starting_sector + out]); out++);` with the
-- rounds left of `max_sectors`. A read past the map is taken for a 0.
unfoldable pub scan : (ℕ → Bool) → List ℕ → ℕ → ℕ → ℕ → ℕ
scan test m starting_sector zero out = out
scan test m starting_sector (suc left) out =
    let rest = scan test m starting_sector left (out + 1) in
    if test (get_or m (starting_sector + out) 0) then rest else out

unfoldable pub get_max_writable_sectors : Context → ℕ → ℕ → ℕ
get_max_writable_sectors ctx starting_sector max_sectors =
    scan (λ e. not (has_flag do_not_use e)) ctx.endurance_test_info.sector_map starting_sector
      max_sectors 0

unfoldable pub get_max_unwritable_sectors : Context → ℕ → ℕ → ℕ
get_max_unwritable_sectors ctx starting_sector max_sectors =
    scan (has_flag do_not_use) ctx.endurance_test_info.sector_map starting_sector max_sectors 0
