-- ===== src/Verify/Compare.antt =====
-- The counters of the comparison and the sector map.
use mfst.Common.{
  ℕ, zero, suc, ◌+◌, ◌%◌, ◌^◌, ◌≤◌, ◌<◌, ◌≡◌, arith, Bool, true, false, List, [], ◌∷◌,
  if◌then◌else◌,
}
use mfst.Context.{Context}
use mfst.SectorMap.{mark_sector_bad, mark_sectors_read, is_sector_bad}
use mfst.SectorMap.Counts.{
  mark_sector_bad-IsValid, count_bad-le-length, run-IsValid, read, run, apply,
}
use mfst.Endurance.Sound.{Sound}
use mfst.Verify.{after_compare, compare_sector, compare_sectors, accept_block}

-- The map is valid, and `d` bad sectors were known before the round.
pub record Tally (n size d : ℕ) (ctx : Context) : Type 0 where
  pub sound : Sound n size ctx
  pub balance :
      ctx.endurance_test_info.total_bad_sectors
      ≡ d + ctx.endurance_test_info.num_new_bad_sectors_this_round

both_count :
    (b : Bool) (total d new : ℕ)
    → total ≡ d + new
    → total + 1 < 2 ^ 64
    → (if b then total else (total + 1) % 2 ^ 64) ≡ d + (if b then new else (new + 1) % 2 ^ 64)
both_count true total d new e h = e
both_count false total d new e h = omega arith

after_compare-Tally :
    {n size d : ℕ} (same : Bool) (ctx : Context) (sector : ℕ)
    → sector < n
    → n + 1 < 2 ^ 64
    → Tally n size d ctx
    → Tally n size d (after_compare same ctx sector)
unfolding after_compare mark_sector_bad is_sector_bad
after_compare-Tally true ctx sector h small t = record {
  sound = record {
    valid = record {
      one_entry_each = t.sound.valid.one_entry_each;
      counted = t.sound.valid.counted;
      fits = t.sound.valid.fits;
    };
    sectors = t.sound.sectors;
    sector_size = t.sound.sector_size;
  };
  balance = t.balance;
}
after_compare-Tally {d = d} false ctx sector h small t =
    let info = ctx.endurance_test_info in
    let v = t.sound.valid in
    let marked = mark_sector_bad-IsValid {ctx = ctx} sector v (omega (arith, t.sound.sectors)) in
    let few : info.total_bad_sectors ≤ ctx.device_info.num_physical_sectors =
      omega (arith, v.counted, v.one_entry_each, count_bad-le-length info.sector_map) in
    record {
      sound = record {
        valid = record {
          one_entry_each = marked.one_entry_each;
          counted = marked.counted;
          fits = marked.fits;
        };
        sectors = t.sound.sectors;
        sector_size = t.sound.sector_size;
      };
      balance =
          both_count (is_sector_bad ctx sector) info.total_bad_sectors d
            info.num_new_bad_sectors_this_round t.balance (omega (arith, t.sound.sectors));
    }

compare_sectors-Tally :
    {n size d : ℕ} (cur_sector : ℕ) (expected found : List ℕ) (left i : ℕ) (ctx : Context)
    → cur_sector + i + left ≤ n
    → n + 1 < 2 ^ 64
    → Tally n size d ctx
    → Tally n size d (compare_sectors cur_sector expected found left i ctx)
unfolding compare_sectors compare_sector
compare_sectors-Tally cur_sector expected found zero i ctx h small t = t
compare_sectors-Tally cur_sector expected found (suc left) i ctx h small t =
    compare_sectors-Tally cur_sector expected found left (i + 1) _ (omega arith) small
      (after_compare-Tally _ ctx (cur_sector + i) (omega arith) small t)

-- Accepting and comparing a block of sectors of the device keeps the invariant of the sector map,
-- and the total of bad sectors grows by exactly as much as the count of new bad sectors of the
-- round; the device has fewer than 2^64 - 1 sectors.
pub accept_block-Tally :
    {n size d : ℕ} (ctx : Context) (cur_sector sectors : ℕ) (expected found : List ℕ)
    → cur_sector + sectors ≤ n
    → n + 1 < 2 ^ 64
    → Tally n size d ctx
    → Tally n size d (accept_block ctx cur_sector sectors expected found)
unfolding accept_block mark_sectors_read run apply
accept_block-Tally ctx cur_sector sectors expected found h small t =
    let v = run-IsValid (read cur_sector (cur_sector + sectors) ∷ []) t.sound.valid (tt, tt) in
    compare_sectors-Tally cur_sector expected found sectors 0 _ (omega arith) small (record {
      sound = record {
        valid = record { one_entry_each = v.one_entry_each; counted = v.counted; fits = v.fits };
        sectors = t.sound.sectors;
        sector_size = t.sound.sector_size;
      };
      balance = t.balance;
    })
