-- ===== src/SectorMap/Counts.antt =====
-- The invariant of the sector map: it has one entry for each sector, and `total_bad_sectors` is
-- the number of entries with SECTOR_MAP_FLAG_FAILED.
use mfst.Common.{
  ℕ, zero, suc, ◌+◌, ◌-◌, ◌%◌, ◌^◌, ◌≤◌, ◌<◌, ◌≡◌, refl, sym, ap, subst, ◌∙◌, arith, Bool, true,
  false, ◌&&◌, ◌||◌, List, [], ◌∷◌, bit_and, bit_or, length, get_or, set, length-set, if◌then◌else◌,
}
use mfst.Context.{Context}
use mfst.SectorMap.{
  do_not_use, failed, failed_this_round, read_this_round, written_this_round, has_flag, with_map,
  rounds, or_range, and_range, mark_sectors_written, mark_sectors_read, mark_sector_bad,
  mark_sector_unwritable, reset_sector_map, reset_sector_map_partial,
}
use mfst.SectorMap.Flags.{has_flag-bit_or, has_flag-bit_and, length-or_range, length-and_range}

abbrev one_if : Bool → ℕ
one_if true = 1
one_if false = 0

abbrev pub count_bad : List ℕ → ℕ
count_bad [] = 0
count_bad (e ∷ m) = one_if (has_flag failed e) + count_bad m

pub count_bad-le-length : (m : List ℕ) → count_bad m ≤ length m
count_bad-le-length [] = omega arith
count_bad-le-length (e ∷ m) = ground (arith, count_bad-le-length m)

count_bad-set :
    (m : List ℕ) (i v : ℕ)
    → i < length m
    → count_bad (set m i v) + one_if (has_flag failed (get_or m i 0))
      ≡ count_bad m + one_if (has_flag failed v)
count_bad-set [] i v h = absurd (omega arith)
count_bad-set (e ∷ m) zero v h = omega arith
count_bad-set (e ∷ m) (suc i) v h = omega (arith, count_bad-set m i v (omega arith))

-- An entry that keeps its flag keeps the count.
count_bad-set_same :
    (m : List ℕ) (i v : ℕ)
    → has_flag failed v ≡ has_flag failed (get_or m i 0)
    → count_bad (set m i v) ≡ count_bad m
count_bad-set_same [] i v h = refl
count_bad-set_same (e ∷ m) zero v h = ap (λ b. one_if b + count_bad m) h
count_bad-set_same (e ∷ m) (suc i) v h =
    ap (λ (n : ℕ). one_if (has_flag failed e) + n) (count_bad-set_same m i v h)

or_false : (b c : Bool) → c ≡ false → (b || c) ≡ b
or_false b c h = ground arith

and_true : (b c : Bool) → c ≡ true → (b && c) ≡ b
and_true b c h = ground arith

count_bad-or_range :
    (flags left i : ℕ) (m : List ℕ)
    → has_flag failed flags ≡ false
    → count_bad (or_range flags left i m) ≡ count_bad m
unfolding or_range
count_bad-or_range flags zero i m h = refl
count_bad-or_range flags (suc left) i m h =
    count_bad-or_range flags left (i + 1) (set m i (bit_or (get_or m i 0) flags)) h
    ∙ count_bad-set_same m i (bit_or (get_or m i 0) flags) (
        has_flag-bit_or 0 (get_or m i 0) flags
        ∙ or_false (has_flag failed (get_or m i 0)) (has_flag failed flags) h)

count_bad-and_range :
    (flags left i : ℕ) (m : List ℕ)
    → has_flag failed flags ≡ true
    → count_bad (and_range flags left i m) ≡ count_bad m
unfolding and_range
count_bad-and_range flags zero i m h = refl
count_bad-and_range flags (suc left) i m h =
    count_bad-and_range flags left (i + 1) (set m i (bit_and (get_or m i 0) flags)) h
    ∙ count_bad-set_same m i (bit_and (get_or m i 0) flags) (
        has_flag-bit_and 0 (get_or m i 0) flags
        ∙ and_true (has_flag failed (get_or m i 0)) (has_flag failed flags) h)

pub record IsValid (ctx : Context) : Type 0 where
  pub one_entry_each :
      length ctx.endurance_test_info.sector_map ≡ ctx.device_info.num_physical_sectors
  pub counted :
      ctx.endurance_test_info.total_bad_sectors ≡ count_bad ctx.endurance_test_info.sector_map
  pub fits : ctx.device_info.num_physical_sectors < 2 ^ 64

-- Setting flags other than SECTOR_MAP_FLAG_FAILED keeps the invariant.
or_range-IsValid :
    (flags left i : ℕ)
    → has_flag failed flags ≡ false
    → {ctx : Context} → IsValid ctx
    → IsValid (with_map ctx (or_range flags left i ctx.endurance_test_info.sector_map))
or_range-IsValid flags left i h {ctx} v =
    let m = ctx.endurance_test_info.sector_map in
    record {
      one_entry_each = length-or_range flags left i m ∙ v.one_entry_each;
      counted = v.counted ∙ sym (count_bad-or_range flags left i m h);
      fits = v.fits;
    }

-- Keeping SECTOR_MAP_FLAG_FAILED keeps the invariant.
and_range-IsValid :
    (left i : ℕ) {ctx : Context}
    → IsValid ctx
    → IsValid (with_map ctx (and_range 0x11 left i ctx.endurance_test_info.sector_map))
and_range-IsValid left i {ctx} v =
    let m = ctx.endurance_test_info.sector_map in
    record {
      one_entry_each = length-and_range 0x11 left i m ∙ v.one_entry_each;
      counted = v.counted ∙ sym (count_bad-and_range 0x11 left i m refl);
      fits = v.fits;
    }

-- The operations on the sector map, with their arguments.
pub data MapOp : Type 0 where
  written read : (start_sector end_sector : ℕ) → MapOp
  bad unwritable : (sector_num : ℕ) → MapOp
  reset : MapOp
  reset_partial : (start end : ℕ) → MapOp

unfoldable pub apply : MapOp → Context → Context
apply (written s e) ctx = mark_sectors_written ctx s e
apply (read s e) ctx = mark_sectors_read ctx s e
apply (bad n) ctx = mark_sector_bad ctx n
apply (unwritable n) ctx = mark_sector_unwritable ctx n
apply reset ctx = reset_sector_map ctx
apply (reset_partial s e) ctx = reset_sector_map_partial ctx s e

unfoldable pub run : List MapOp → Context → Context
run [] ctx = ctx
run (op ∷ ops) ctx = run ops (apply op ctx)

-- The sector numbers that an operation writes without a bound of its own lie on the device.
abbrev pub InRange : ℕ → MapOp → Type 0
InRange n (bad s) = s < n
InRange n (unwritable s) = s < n
InRange n (reset_partial s e) = e ≤ n
InRange n op = Unit {0}

abbrev pub AllInRange : ℕ → List MapOp → Type 0
AllInRange n [] = Unit {0}
AllInRange n (op ∷ ops) = InRange n op × AllInRange n ops

or_true : (b : Bool) → (b || true) ≡ true
or_true b = ground arith

-- The counter goes up exactly when the flag was clear, and does not wrap.
counts_up :
    (b : Bool) {t c c' : ℕ}
    → t ≡ c
    → c' + one_if b ≡ c + 1
    → c' < 2 ^ 64
    → (if b then t else (t + 1) % 2 ^ 64) ≡ c'
counts_up true e h lt = omega arith
counts_up false e h lt = omega arith

pub mark_sector_bad-IsValid :
    {ctx : Context} (s : ℕ)
    → IsValid ctx
    → s < ctx.device_info.num_physical_sectors
    → IsValid (mark_sector_bad ctx s)
unfolding mark_sector_bad
mark_sector_bad-IsValid {ctx} s v h =
    let m = ctx.endurance_test_info.sector_map in
    let e = get_or m s 0 in
    let e' = bit_or e (bit_or failed_this_round failed) in
    let now_bad : has_flag failed e' ≡ true = has_flag-bit_or 0 e 9 ∙ or_true (has_flag failed e) in
    record {
      one_entry_each = length-set m s e' ∙ v.one_entry_each;
      counted =
          counts_up (has_flag failed e) {c' = count_bad (set m s e')} v.counted
            (count_bad-set m s e' (omega (arith, v.one_entry_each))
              ∙ ap (λ b. count_bad m + one_if b) now_bad)
            (omega (
              arith,
              count_bad-le-length (set m s e'),
              length-set m s e',
              v.one_entry_each,
              v.fits,
            ));
      fits = v.fits;
    }

apply-IsValid :
    (op : MapOp) {ctx : Context}
    → IsValid ctx
    → InRange ctx.device_info.num_physical_sectors op
    → IsValid (apply op ctx)
unfolding apply mark_sectors_written mark_sectors_read mark_sector_unwritable reset_sector_map
    reset_sector_map_partial or_range
apply-IsValid (written s e) {ctx} v h =
    or_range-IsValid written_this_round (rounds ctx s e) s refl v
apply-IsValid (read s e) {ctx} v h = or_range-IsValid read_this_round (rounds ctx s e) s refl v
apply-IsValid (bad s) v h = mark_sector_bad-IsValid s v h
apply-IsValid (unwritable s) {ctx} v h = or_range-IsValid do_not_use 1 s refl v
apply-IsValid reset {ctx} v h = and_range-IsValid ctx.device_info.num_physical_sectors 0 v
apply-IsValid (reset_partial s e) v h = and_range-IsValid (e - s) s v

-- No operation changes the number of sectors.
same_sectors :
    (op : MapOp) (ctx : Context)
    → (apply op ctx).device_info.num_physical_sectors ≡ ctx.device_info.num_physical_sectors
unfolding apply mark_sectors_written mark_sectors_read mark_sector_bad mark_sector_unwritable
    reset_sector_map reset_sector_map_partial
same_sectors (written s e) ctx = refl
same_sectors (read s e) ctx = refl
same_sectors (bad s) ctx = refl
same_sectors (unwritable s) ctx = refl
same_sectors reset ctx = refl
same_sectors (reset_partial s e) ctx = refl

-- Any sequence of operations on sectors of the device keeps the invariant: the map has one entry
-- for each sector, and total_bad_sectors is the number of entries flagged as failed.
pub run-IsValid :
    (ops : List MapOp) {ctx : Context}
    → IsValid ctx
    → AllInRange ctx.device_info.num_physical_sectors ops
    → IsValid (run ops ctx)
unfolding run
run-IsValid [] v h = v
run-IsValid (op ∷ ops) {ctx} v h =
    run-IsValid ops (apply-IsValid op v h.0)
      (subst (λ n. AllInRange n ops) (sym (same_sectors op ctx)) h.1)
