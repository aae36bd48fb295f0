-- ===== src/Search/BodMod.antt =====
-- `compare_bod_mod_data` of device.c: the beginning and the middle of a device are read and compared
-- with the copies. The two loops that read are one here, with the position where they begin; a
-- `read` that keeps giving 0 bytes keeps them running: they take fuel.
use mfst.Common.{
  ℕ, zero, suc, ◌+◌, ◌-◌, ◌*◌, ◌/◌, ◌%◌, true, false, Option, none, some, List, if◌then◌else◌, leb,
  ◌==◌, length, replicate,
}
use mfst.Common.Memory.{memcpy, slice}
use mfst.Context.{Context}
use mfst.SectorMap.{get_max_writable_sectors, get_max_unwritable_sectors}
use mfst.Search.{Verdict, matching, differing, failing, DeviceFile}
use mfst.Verify.{same_bytes}

-- One sector, or what is left of it.
abbrev pub sector_or_rest : ℕ → ℕ → ℕ
sector_or_rest sector_size left =
    if left % sector_size == 0 then sector_size else left % sector_size

-- The buffer and `bytes_left_to_read`
abbrev pub Area : Type 0
Area = List ℕ × ℕ

-- `memset(read_buffer + (size - left), 0, n)`
abbrev pub clear : ℕ → ℕ → Area → Area
clear size n area = (memcpy (area.0) (size - area.1) (replicate n 0), area.1 - n)

-- The count of the sectors that are the same in both buffers, with the sectors left from `off` on.
unfoldable pub count_same : ℕ → ℕ → ℕ → List ℕ → List ℕ → ℕ
count_same sector_size zero off a b = 0
count_same sector_size (suc left) off a b =
    (if same_bytes (slice a off sector_size) (slice b off sector_size) then 1 else 0)
    + count_same sector_size left (off + sector_size) a b

-- The rounds of `for(n = 0; n < size; n += sector_size)`
abbrev pub sector_rounds : ℕ → ℕ → ℕ
sector_rounds size sector_size = size / sector_size + (if size % sector_size == 0 then 0 else 1)

module _ {W : Type 0} (os : DeviceFile W) where
  -- The position is set, or the function ends with -1.
  abbrev pub seek_then : ℕ → ℕ → Area → W → Option Area × W
  seek_then fd position area w =
      let seek = os.lseek fd position w in (if seek.0 then some area else none, seek.1)

  -- What follows `read`: what was read is kept, or a sector is cleared and passed over. `read` gives
  -- no more bytes than it was asked for.
  abbrev pub take_read : Context → ℕ → ℕ → Area → Option (List ℕ) → W → Option Area × W
  take_read ctx fd middle area none w =
      let size = ctx.device_info.bod_mod_buffer_size in
      let area' = clear size (sector_or_rest ctx.device_info.sector_size (area.1)) area in
      seek_then fd (middle + (size - area'.1)) area' w
  take_read ctx fd middle area (some bytes) w =
      let size = ctx.device_info.bod_mod_buffer_size in
      (some (memcpy (area.0) (size - area.1) bytes, area.1 - length bytes), w)

  unfoldable pub read_writable : Context → ℕ → ℕ → Area → W → Option Area × W
  read_writable ctx fd middle area w =
      let s = ctx.device_info.sector_size in
      let size = ctx.device_info.bod_mod_buffer_size in
      let n = get_max_writable_sectors ctx ((middle + (size - area.1)) / s) (area.1 / s) in
      elim (n == 0) [
        | true ↦ (some area, w)
        | false ↦ let r = os.read fd (n * s + area.1 % s) w in take_read ctx fd middle area r.0 r.1
      ]

  -- Unwritable sectors are cleared and passed over.
  unfoldable pub skip_unwritable : Context → ℕ → ℕ → Area → W → Option Area × W
  skip_unwritable ctx fd middle area w =
      let s = ctx.device_info.sector_size in
      let size = ctx.device_info.bod_mod_buffer_size in
      let n = get_max_unwritable_sectors ctx ((middle + (size - area.1)) / s) (area.1 / s) in
      elim (n == 0) [
        | true ↦ (some area, w)
        | false ↦
            let area' = clear size (n * s) area in seek_then fd (middle + (size - area'.1)) area' w
      ]

  -- One round of the loop.
  abbrev pub read_round : Context → ℕ → ℕ → Area → W → Option Area × W
  read_round ctx fd middle area w =
      let r = read_writable ctx fd middle area w in
      elim r.0 [ none ↦ (none, r.1) | some area' ↦ skip_unwritable ctx fd middle area' r.1 ]

  -- `while(bytes_left_to_read)`: the buffer at its end, or -1.
  unfoldable pub read_area : ℕ → Context → ℕ → ℕ → Area → W → Option (Option (List ℕ) × W)
  read_area fuel ctx fd middle (buffer, zero) w = some (some buffer, w)
  read_area zero ctx fd middle (buffer, suc left) w = none
  read_area (suc fuel) ctx fd middle (buffer, suc left) w =
      let r = read_round ctx fd middle (buffer, suc left) w in
      elim r.0 [ none ↦ some (none, r.1) | some area ↦ read_area fuel ctx fd middle area r.1 ]

  -- The seek to the area and the loop.
  unfoldable pub seek_area : ℕ → Context → ℕ → ℕ → List ℕ → W → Option (Option (List ℕ) × W)
  seek_area fuel ctx fd middle buffer w =
      let seek = os.lseek fd middle w in
      elim seek.0 [
        | false ↦ some (none, seek.1)
        | true ↦ read_area fuel ctx fd middle (buffer, ctx.device_info.bod_mod_buffer_size) seek.1
      ]

  -- The verdict on the middle, with the sectors that matched at the beginning. The buffer has been
  -- freed when its sectors are counted: `freed` is what its memory holds then.
  unfoldable pub judge_middle : Context → ℕ → ℕ → List ℕ → List ℕ → Verdict
  judge_middle ctx sector_size matching_sectors buffer freed =
      let size = ctx.device_info.bod_mod_buffer_size in
      let count =
        count_same sector_size (sector_rounds size sector_size) 0 freed
          ctx.device_info.mod_buffer in
      if same_bytes buffer ctx.device_info.mod_buffer
      then matching
      else if leb (size / sector_size) (matching_sectors + count)
      then matching
      else differing

  -- From the loop over the middle on.
  abbrev pub after_middle :
      Context → ℕ → ℕ → (List ℕ → List ℕ) → Option (Option (List ℕ) × W) → Option (Verdict × W)
  after_middle ctx sector_size matching_sectors free none = none
  after_middle ctx sector_size matching_sectors free (some (none, w)) = some (failing, w)
  after_middle ctx sector_size matching_sectors free (some (some buffer, w)) =
      some (judge_middle ctx sector_size matching_sectors buffer (free buffer), w)

  -- From the loop over the beginning on.
  abbrev pub after_beginning :
      ℕ → Context → ℕ → ℕ → (List ℕ → List ℕ) → Option (Option (List ℕ) × W) → Option (Verdict × W)
  after_beginning fuel ctx fd sector_size free none = none
  after_beginning fuel ctx fd sector_size free (some (none, w)) = some (failing, w)
  after_beginning fuel ctx fd sector_size free (some (some buffer, w)) =
      let size = ctx.device_info.bod_mod_buffer_size in
      elim (same_bytes buffer ctx.device_info.bod_buffer) [
        | true ↦ some (matching, w)
        | false ↦
            after_middle ctx sector_size
              (count_same sector_size (sector_rounds size sector_size) 0 buffer
                ctx.device_info.bod_buffer)
              free (seek_area fuel ctx fd (ctx.device_info.physical_size / 2) buffer w)
      ]

  unfoldable pub compare_bod_mod_data :
      ℕ → (List ℕ → List ℕ) → Context → ℕ → W → Option (Verdict × W)
  compare_bod_mod_data fuel free ctx fd w =
      let buffer = os.malloc ctx.device_info.bod_mod_buffer_size w in
      elim buffer.0 [
        | none ↦ some (failing, buffer.1)
        | some bytes ↦
            let size = os.sector_size fd buffer.1 in
            elim size.0 [
              | none ↦ some (failing, size.1)
              | some sector_size ↦
                  after_beginning fuel ctx fd sector_size free
                    (seek_area fuel ctx fd 0 bytes size.1)
            ]
      ]
