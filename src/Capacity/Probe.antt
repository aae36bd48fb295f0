-- ===== src/Capacity/Probe.antt =====
-- `probe_device_size` of mfst.c, from the writing of the first slices on.
use mfst.Common.{
  ℕ, zero, suc, ◌+◌, ◌-◌, ◌*◌, ◌/◌, Bool, true, false, Option, none, some, List, [], ◌∷◌,
  if◌then◌else◌, ltb, ◌==◌,
}
use mfst.Common.Memory.{slice}
use mathlib.Core.List.{reverse}
use mfst.Capacity.{
  word, word_minus, num_slices, record_size, with_rng, compare_slice, initial_sectors,
  write_data_to_device, read_slice,
}
use mfst.Context.{Context, fake_flash_no}
use mfst.Device.{Device}
use mfst.Rng.{rng_init, rng_fill_buffer}
use mfst.Search.BodMod.{sector_rounds}

-- What a part of the test ends with: the whole test ends, with success or not, or it goes on
-- between two sectors, with the two buffers.
pub data Progress : Type 0 where
  finished : Bool → Context → Progress
  between : (low high : ℕ) → List ℕ × List ℕ → Context → Progress

module _ {W : Type 0} (dev : Device W) (posix_memalign : ℕ → W → Bool × W) (random : ℕ → ℕ → ℕ)
    (slice_size : ℕ) where
  -- The result of a part, or none when the fuel is used up.
  abbrev pub Part : Type 0
  Part = Option (Progress × W)

  -- `lseek` to a sector, and the next part.
  abbrev pub seek_sector : Context → ℕ → W → (W → Part) → Part
  seek_sector ctx sector w next =
      let r = dev.lseek ctx.device_info.fd (word (sector * ctx.device_info.sector_size)) w in
      elim r.0 [ none ↦ some (finished false ctx, r.1) | some offset ↦ next r.1 ]

  -- `write_data_to_device`, and the next part.
  abbrev pub write_then : ℕ → Context → List ℕ → W → (W → Part) → Part
  write_then fuel ctx buf w next = elim (write_data_to_device dev posix_memalign fuel ctx buf w) [
    | none ↦ none
    | some (false, w) ↦ some (finished false ctx, w)
    | some (true, w) ↦ next w
  ]

  -- The slices are written, the last first: the sectors of those left, with their number.
  unfoldable pub write_slices : ℕ → Context → List ℕ → ℕ → List ℕ → W → (W → Part) → Part
  write_slices fuel ctx buf i [] w next = next w
  write_slices fuel ctx buf i (sector ∷ rest) w next = seek_sector ctx sector w λ w.
      write_then fuel ctx (slice buf ((i - 1) * slice_size) slice_size) w
        λ w. write_slices fuel ctx buf (i - 1) rest w next

  abbrev pub sectors_of_slice : Context → ℕ
  sectors_of_slice ctx = sector_rounds slice_size ctx.device_info.sector_size

  -- What the first difference in slice `i`, at `j`, tells: `initial` is the sector of the slice.
  abbrev pub judge_slice : Context → ℕ → ℕ → ℕ → ℕ → List ℕ × List ℕ → Progress
  judge_slice ctx i initial j low bufs =
      let s = ctx.device_info.sector_size in
      let size = word (initial * s + j) in
      if i == 0
      then if j == 0 then finished false ctx else finished false (record_size j (j / s) ctx)
      else if ltb 0 j
      then finished true (record_size size (size / s) ctx)
      else between low initial bufs ctx

  -- The slices are read back, those left from number `i` on.
  unfoldable pub read_back : ℕ → Context → ℕ → List ℕ → ℕ → List ℕ × List ℕ → W → Part
  read_back fuel ctx i [] low bufs w =
      some (between low ctx.device_info.num_logical_sectors bufs ctx, w)
  read_back fuel ctx i (initial ∷ rest) low bufs w = seek_sector ctx initial w λ w.
      elim (read_slice dev fuel ctx slice_size slice_size bufs w) [
        | none ↦ none
        | some (bufs, w) ↦
            let c =
              compare_slice ctx.device_info.sector_size initial
                (slice (bufs.0) (i * slice_size) slice_size) (bufs.1) (sectors_of_slice ctx) 0
                low in
            elim c.0 [
              | some j ↦ some (judge_slice ctx i initial j (c.1) bufs, w)
              | none ↦ read_back fuel ctx (i + 1) rest (c.1) bufs w
            ]
      ]

  -- The four slices that are read back in a round of the search, those left from number `i` on.
  unfoldable pub check_slices : ℕ → Context → ℕ → ℕ → ℕ → ℕ → ℕ → List ℕ × List ℕ → W → Part
  check_slices fuel ctx cur zero i low high bufs w = some (between low high bufs ctx, w)
  check_slices fuel ctx cur (suc left) i low high bufs w =
      elim (read_slice dev fuel ctx slice_size slice_size bufs w) [
        | none ↦ none
        | some (bufs, w) ↦
            let s = ctx.device_info.sector_size in
            let c =
              compare_slice s 0 (slice (bufs.0) (i * slice_size) slice_size) (bufs.1)
                (sectors_of_slice ctx) 0 0 in
            elim c.0 [
              | none ↦
                  check_slices fuel ctx cur left (i + 1) (word (cur + slice_size * 4 / s)) high bufs
                    w
              | some j ↦
                  let size = word (cur * s + i * slice_size + j) in
                  some (
                    if ltb 0 j
                        then finished true (record_size size (size / s) ctx)
                        else between low (word (cur + i * slice_size / s)) bufs ctx,
                    w,
                  )
            ]
      ]

  -- The end of the search: the device is good up to `low`.
  abbrev pub give_up : ℕ → Context → Progress
  give_up low ctx = finished true (record_size (word (low * ctx.device_info.sector_size)) low ctx)

  -- One round of the search writes and reads at `cur`.
  unfoldable pub search_at : ℕ → Context → ℕ → ℕ → ℕ → List ℕ × List ℕ → W → Part
  search_at fuel ctx cur low high bufs w = seek_sector ctx cur w λ w.
      let filled =
        rng_fill_buffer random (bufs.0) (slice_size * num_slices)
          ctx.endurance_test_info.rng_state in
      let ctx' = with_rng (filled.1) ctx in
      write_then fuel ctx' (filled.0) w λ w.
        seek_sector ctx' cur w λ w. check_slices fuel ctx' cur 4 0 low high (filled.0, bufs.1) w

  -- `while(keep_searching)`
  unfoldable pub search_between : ℕ → ℕ → Progress → W → Part
  search_between fuel inner (finished ok ctx) w = some (finished ok ctx, w)
  search_between zero inner (between low high bufs ctx) w = none
  search_between (suc fuel) inner (between low high bufs ctx) w =
      let size = word_minus high low in
      let limit = slice_size * num_slices / ctx.device_info.sector_size in
      elim (ltb limit size) [
        | true ↦ elim (search_at inner ctx (word (size / 2 + low)) low high bufs w) [
          | none ↦ none
          | some (progress, w) ↦ search_between fuel inner progress w
        ]
        | false ↦ elim (search_at inner ctx low low high bufs w) [
          | none ↦ none
          | some (finished ok ctx, w) ↦ some (finished ok ctx, w)
          | some (between low high bufs ctx, w) ↦ some (give_up low ctx, w)
        ]
      ]

  -- What follows the reading back: a device without a difference is as large as it says.
  abbrev pub after_read_back : ℕ → Part → Part
  after_read_back fuel none = none
  after_read_back fuel (some (finished ok ctx, w)) = some (finished ok ctx, w)
  after_read_back fuel (some (between low high bufs ctx, w)) =
      if high == ctx.device_info.num_logical_sectors
      then some (
        finished true record ctx {
          capacity_test_info = record {
            test_performed = true;
            is_fake_flash = fake_flash_no;
            device_size = ctx.device_info.logical_size;
            num_sectors = ctx.device_info.num_logical_sectors;
          };
        },
        w,
      )
      else search_between fuel fuel (between low high bufs ctx) w

  -- The buffers are what `posix_memalign` gives, `time` is the seed.
  unfoldable pub probe_device_size : ℕ → ℕ → Option (List ℕ) → Option (List ℕ) → Context → W → Part
  probe_device_size fuel time none readbuf ctx w = some (finished false ctx, w)
  probe_device_size fuel time (some buf) none ctx w = some (finished false ctx, w)
  probe_device_size fuel time (some buf) (some readbuf) ctx w =
      let seeded = rng_init ctx.endurance_test_info.rng_state time in
      let filled = rng_fill_buffer random buf (slice_size * num_slices) seeded in
      let placed = initial_sectors random slice_size (with_rng (filled.1) ctx) in
      write_slices fuel placed.1 (filled.0) num_slices (reverse (placed.0)) w
        λ w. after_read_back fuel (read_back fuel placed.1 0 (placed.0) 0 (filled.0, readbuf) w)
