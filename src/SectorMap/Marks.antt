-- ===== src/SectorMap/Marks.antt =====
-- What the operations on the sector map change: which sectors, and which of their flags.
use mfst.Common.{
  ℕ, zero, suc, ◌+◌, ◌-◌, ◌^◌, ◌<◌, ◌≡◌, refl, ap, ◌∙◌, arith, Bool, true, false, ◌&&◌, ◌||◌, List,
  [], ◌∷◌, bit_and, bit_or, length, get_or, set, if◌then◌else◌, ltb, leb, min,
}
use mfst.Context.{Context}
use mfst.SectorMap.{
  do_not_use, failed, failed_this_round, read_this_round, written_this_round, has_flag, rounds,
  or_range, and_range, mark_sectors_written, mark_sectors_read, mark_sector_bad,
  mark_sector_unwritable, reset_sector_map, reset_sector_map_partial,
}
use mfst.SectorMap.Flags.{
  has_flag-bit_or, has_flag-bit_and, get_or-or_range_inside, get_or-or_range_outside,
  get_or-and_range_inside,
}
use mfst.SectorMap.Counts.{
  IsValid, MapOp, apply, run, written, read, bad, unwritable, reset, reset_partial,
}

abbrev pub entry : Context → ℕ → ℕ
entry ctx j = get_or ctx.endurance_test_info.sector_map j 0

-- `|=` over the range that a `mark_sectors_*` loop goes through.
or_range-between :
    (flags s e n : ℕ) (m : List ℕ) (j : ℕ)
    → length m ≡ n
    → j < n
    → get_or (or_range flags (min e n - s) s m) j 0
      ≡ (if leb s j && ltb j e then bit_or (get_or m j 0) flags else get_or m j 0)
or_range-between flags s e n m j len h = ground (
  arith,
  get_or-or_range_inside flags (min e n - s) s m j,
  get_or-or_range_outside flags (min e n - s) s m j,
)

-- Marking a range as written sets the flag of exactly the sectors of the device that lie in the
-- range, on a valid map.
mark_sectors_written_lem :
    {ctx : Context} (start_sector end_sector j : ℕ)
    → IsValid ctx
    → j < ctx.device_info.num_physical_sectors
    → entry (mark_sectors_written ctx start_sector end_sector) j ≡ (
        if leb start_sector j && ltb j end_sector
        then bit_or (entry ctx j) written_this_round
        else entry ctx j)
unfolding mark_sectors_written
mark_sectors_written_lem {ctx} s e j v h =
    or_range-between written_this_round s e ctx.device_info.num_physical_sectors
      ctx.endurance_test_info.sector_map j v.one_entry_each h

-- `mark_sectors_read` does the same with SECTOR_MAP_FLAG_READ_THIS_ROUND.
pub mark_sectors_read_lem :
    {ctx : Context} (start_sector end_sector j : ℕ)
    → IsValid ctx
    → j < ctx.device_info.num_physical_sectors
    → entry (mark_sectors_read ctx start_sector end_sector) j ≡ (
        if leb start_sector j && ltb j end_sector
        then bit_or (entry ctx j) read_this_round
        else entry ctx j)
unfolding mark_sectors_read
mark_sectors_read_lem {ctx} s e j v h =
    or_range-between read_this_round s e ctx.device_info.num_physical_sectors
      ctx.endurance_test_info.sector_map j v.one_entry_each h

kept :
    (k e : ℕ)
    → has_flag (2 ^ k) 0x11 ≡ true
    → has_flag (2 ^ k) (bit_and e 0x11) ≡ has_flag (2 ^ k) e
kept k e h = has_flag-bit_and k e 0x11 ∙ both (has_flag (2 ^ k) e) h
  where
    both : (b : Bool) {c : Bool} → c ≡ true → (b && c) ≡ b
    both b h = ground arith

dropped : (k e : ℕ) → has_flag (2 ^ k) 0x11 ≡ false → has_flag (2 ^ k) (bit_and e 0x11) ≡ false
dropped k e h = has_flag-bit_and k e 0x11 ∙ none_left (has_flag (2 ^ k) e) h
  where
    none_left : (b : Bool) {c : Bool} → c ≡ false → (b && c) ≡ false
    none_left b h = ground arith

-- After a reset every sector of the device has the flags of the round cleared, and those of a
-- failed and of an unusable sector as before, on a valid map.
reset_sector_map_lem :
    {ctx : Context} (j : ℕ)
    → IsValid ctx
    → j < ctx.device_info.num_physical_sectors
    → let e = entry (reset_sector_map ctx) j in
      (has_flag written_this_round e ≡ false)
      × (has_flag read_this_round e ≡ false)
      × (has_flag failed_this_round e ≡ false)
      × (has_flag failed e ≡ has_flag failed (entry ctx j))
      × (has_flag do_not_use e ≡ has_flag do_not_use (entry ctx j))
unfolding reset_sector_map
reset_sector_map_lem {ctx} j v h =
    let m = ctx.endurance_test_info.sector_map in
    let e = get_or m j 0 in
    let masked =
      get_or-and_range_inside 0x11 ctx.device_info.num_physical_sectors 0 m j (omega arith)
        (omega arith) (omega (arith, v.one_entry_each)) in
    (
      ap (has_flag 2) masked ∙ dropped 1 e refl,
      ap (has_flag 4) masked ∙ dropped 2 e refl,
      ap (has_flag 8) masked ∙ dropped 3 e refl,
      ap (has_flag 1) masked ∙ kept 0 e refl,
      ap (has_flag 16) masked ∙ kept 4 e refl,
    )

-- A write to an entry that keeps a flag there keeps it everywhere.
set_keeps :
    (f : ℕ → Bool) (m : List ℕ) (i v j : ℕ)
    → (f (get_or m i 0) ≡ true → f v ≡ true)
    → f (get_or m j 0) ≡ true
    → f (get_or (set m i v) j 0) ≡ true
set_keeps f [] i v j keep h = h
set_keeps f (x ∷ m) zero v zero keep h = keep h
set_keeps f (x ∷ m) zero v (suc j) keep h = h
set_keeps f (x ∷ m) (suc i) v zero keep h = h
set_keeps f (x ∷ m) (suc i) v (suc j) keep h = set_keeps f m i v j keep h

or_keeps : (k e g : ℕ) → has_flag (2 ^ k) e ≡ true → has_flag (2 ^ k) (bit_or e g) ≡ true
or_keeps k e g h = has_flag-bit_or k e g ∙ first (has_flag (2 ^ k) e) (has_flag (2 ^ k) g) h
  where
    first : (b c : Bool) → b ≡ true → (b || c) ≡ true
    first b c h = ground arith

or_range_keeps :
    (k flags left i : ℕ) (m : List ℕ) (j : ℕ)
    → has_flag (2 ^ k) (get_or m j 0) ≡ true
    → has_flag (2 ^ k) (get_or (or_range flags left i m) j 0) ≡ true
unfolding or_range
or_range_keeps k flags zero i m j h = h
or_range_keeps k flags (suc left) i m j h =
    let e = get_or m i 0 in
    or_range_keeps k flags left (i + 1) (set m i (bit_or e flags)) j
      (set_keeps (has_flag (2 ^ k)) m i (bit_or e flags) j (or_keeps k e flags) h)

and_range_keeps :
    (k left i : ℕ) (m : List ℕ) (j : ℕ)
    → has_flag (2 ^ k) 0x11 ≡ true
    → has_flag (2 ^ k) (get_or m j 0) ≡ true
    → has_flag (2 ^ k) (get_or (and_range 0x11 left i m) j 0) ≡ true
unfolding and_range
and_range_keeps k zero i m j mask h = h
and_range_keeps k (suc left) i m j mask h =
    let e = get_or m i 0 in
    and_range_keeps k left (i + 1) (set m i (bit_and e 0x11)) j mask
      (set_keeps (has_flag (2 ^ k)) m i (bit_and e 0x11) j (λ p. kept k e mask ∙ p) h)

apply_keeps :
    (k : ℕ) (op : MapOp) (ctx : Context) (j : ℕ)
    → has_flag (2 ^ k) 0x11 ≡ true
    → has_flag (2 ^ k) (entry ctx j) ≡ true
    → has_flag (2 ^ k) (entry (apply op ctx) j) ≡ true
unfolding apply mark_sectors_written mark_sectors_read mark_sector_bad mark_sector_unwritable
    reset_sector_map reset_sector_map_partial
apply_keeps k (written s e) ctx j mask h =
    or_range_keeps k written_this_round (rounds ctx s e) s ctx.endurance_test_info.sector_map j h
apply_keeps k (read s e) ctx j mask h =
    or_range_keeps k read_this_round (rounds ctx s e) s ctx.endurance_test_info.sector_map j h
apply_keeps k (bad s) ctx j mask h =
    set_keeps (has_flag (2 ^ k)) ctx.endurance_test_info.sector_map s (bit_or (entry ctx s) 9) j
      (or_keeps k (entry ctx s) 9) h
apply_keeps k (unwritable s) ctx j mask h =
    set_keeps (has_flag (2 ^ k)) ctx.endurance_test_info.sector_map s (bit_or (entry ctx s) 16) j
      (or_keeps k (entry ctx s) 16) h
apply_keeps k reset ctx j mask h =
    and_range_keeps k ctx.device_info.num_physical_sectors 0 ctx.endurance_test_info.sector_map j
      mask h
apply_keeps k (reset_partial s e) ctx j mask h =
    and_range_keeps k (e - s) s ctx.endurance_test_info.sector_map j mask h

run_keeps :
    (k : ℕ) (ops : List MapOp) (ctx : Context) (j : ℕ)
    → has_flag (2 ^ k) 0x11 ≡ true
    → has_flag (2 ^ k) (entry ctx j) ≡ true
    → has_flag (2 ^ k) (entry (run ops ctx) j) ≡ true
unfolding run
run_keeps k [] ctx j mask h = h
run_keeps k (op ∷ ops) ctx j mask h =
    run_keeps k ops (apply op ctx) j mask (apply_keeps k op ctx j mask h)

-- No sequence of operations on the sector map, resets included, clears the flag of a sector that
-- has failed.
pub run_keeps_failed :
    (ops : List MapOp) (ctx : Context) (j : ℕ)
    → has_flag failed (entry ctx j) ≡ true
    → has_flag failed (entry (run ops ctx) j) ≡ true
run_keeps_failed ops ctx j h = run_keeps 0 ops ctx j refl h

-- No sequence of operations on the sector map, resets included, clears the flag of a sector that
-- must not be used.
pub run_keeps_unusable :
    (ops : List MapOp) (ctx : Context) (j : ℕ)
    → has_flag do_not_use (entry ctx j) ≡ true
    → has_flag do_not_use (entry (run ops ctx) j) ≡ true
run_keeps_unusable ops ctx j h = run_keeps 4 ops ctx j refl h
