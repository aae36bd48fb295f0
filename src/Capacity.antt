-- ===== src/Capacity.antt =====
-- The capacity test of mfst.c: `probe_device_size` and `write_data_to_device`. Messages, key presses,
-- the lock file and the release of memory are left out. `slice_size` is a parameter, which the
-- program sets to 4194304; the loops that read and write until nothing is left, and the search
-- between two sectors, take fuel. On a device too small for the eighths to hold a slice, the remainder by
-- 0 stops the program, which the model does not show.
pub mod Probe
pub mod Compare
pub mod Write
use mfst.Common.{
  ℕ, zero, suc, ◌+◌, ◌-◌, ◌*◌, ◌/◌, ◌%◌, ◌^◌, min, Bool, true, false, Option, none, some, List, [],
  ◌∷◌, if◌then◌else◌, ltb, ◌==◌, length, replicate, bit_and,
}
use mfst.Common.Memory.{memcpy, slice}
use mfst.Context.{
  Context, CapacityTestInfo, EnduranceTestInfo, RngState, fake_flash_no, fake_flash_yes,
}
use mfst.Device.{Device}
use mfst.Rng.{rng_get_random_number}
use mfst.Verify.{same_bytes}

-- The wrap of uint64_t
abbrev pub word : ℕ → ℕ
word n = n % 2 ^ 64

-- A difference of two uint64_t
abbrev pub word_minus : ℕ → ℕ → ℕ
word_minus a b = (a + 2 ^ 64 - b) % 2 ^ 64

abbrev pub num_slices : ℕ
num_slices = 9

-- The result of the test in `capacity_test_info`.
unfoldable pub record_size : ℕ → ℕ → Context → Context
record_size size sectors ctx = record ctx {
  capacity_test_info = record {
    test_performed = true;
    is_fake_flash = if size == ctx.device_info.logical_size then fake_flash_no else fake_flash_yes;
    device_size = size;
    num_sectors = sectors;
  };
}

abbrev pub with_rng : RngState → Context → Context
with_rng s ctx = record ctx {
  endurance_test_info = record (ctx.endurance_test_info) { rng_state = s };
}

-- The comparison of a slice, with the sectors left: where it first differs, and `low` after it.
unfoldable pub compare_slice : ℕ → ℕ → List ℕ → List ℕ → ℕ → ℕ → ℕ → Option ℕ × ℕ
compare_slice sector_size initial expected found zero j low = (none, low)
compare_slice sector_size initial expected found (suc left) j low =
    elim (same_bytes (slice found j sector_size) (slice expected j sector_size)) [
      | true ↦
          compare_slice sector_size initial expected found left (j + sector_size)
            (initial + j / sector_size + 1)
      | false ↦ (some j, low)
    ]

-- Where the data is put at first: the beginning, the end, and a random sector in each eighth of
-- the device. The loop has the rounds left of `i = 1, ..., 7`.
unfoldable pub initial_sectors_from : (ℕ → ℕ → ℕ) → ℕ → Context → ℕ → ℕ → ℕ → ℕ → List ℕ × Context
initial_sectors_from random slice_size ctx zero i low high =
    let info = ctx.device_info in
    (word_minus info.num_logical_sectors (1 + slice_size / info.sector_size) ∷ [], ctx)
initial_sectors_from random slice_size ctx (suc left) i low high =
    let info = ctx.device_info in
    let r = rng_get_random_number random ctx.endurance_test_info.rng_state in
    let sector = word (low + bit_and r.0 (2 ^ 31 - 1) % word_minus high low) in
    let eighth = info.num_logical_sectors / (num_slices - 1) in
    let end_of_slice = word (sector + slice_size / info.sector_size) in
    let low' = if ltb (eighth * i) end_of_slice then end_of_slice else eighth * i in
    let high' =
      if i == 7 then word_minus info.num_logical_sectors (slice_size * 2) else eighth * (i + 1) in
    let rest =
      initial_sectors_from random slice_size (with_rng (r.1) ctx) left (i + 1) low' high' in
    (sector ∷ rest.0, rest.1)

unfoldable pub initial_sectors : (ℕ → ℕ → ℕ) → ℕ → Context → List ℕ × Context
initial_sectors random slice_size ctx =
    let info = ctx.device_info in
    let rest =
      initial_sectors_from random slice_size ctx 7 1 (slice_size / info.sector_size)
        (info.num_logical_sectors / 8) in
    (0 ∷ rest.0, rest.1)

module _ {W : Type 0} (dev : Device W) where
  -- `buf` and `readbuf` after a slice has been read. A read that fails clears the rest of a slice in
  -- `buf`.
  unfoldable pub read_slice :
      ℕ → Context → ℕ → ℕ → List ℕ × List ℕ → W → Option ((List ℕ × List ℕ) × W)
  read_slice fuel ctx slice_size zero bufs w = some (bufs, w)
  read_slice zero ctx slice_size (suc left) bufs w = none
  read_slice (suc fuel) ctx slice_size (suc left) bufs w =
      let r = dev.read ctx.device_info.fd (suc left) w in
      elim r.0 [
        | none ↦
            some ((memcpy (bufs.0) (slice_size - suc left) (replicate (suc left) 0), bufs.1), r.1)
        | some bytes ↦
            read_slice fuel ctx slice_size (suc left - length bytes)
              (bufs.0, memcpy (bufs.1) (slice_size - suc left) bytes) r.1
      ]

module _ {W : Type 0} (dev : Device W) where
  -- Both loops of `write_data_to_device`: `block_left` is 0 between two blocks.
  unfoldable pub write_data_loop : ℕ → Context → ℕ → List ℕ → ℕ → ℕ → ℕ → W → Option (Bool × W)
  write_data_loop fuel ctx block_size buf len zero block_left w = some (true, w)
  write_data_loop zero ctx block_size buf len (suc left) block_left w = none
  write_data_loop (suc fuel) ctx block_size buf len (suc left) block_left w =
      let n = if block_left == 0 then min block_size (suc left) else block_left in
      elim (n == 0) [
        | true ↦ write_data_loop fuel ctx block_size buf len (suc left) 0 w
        | false ↦
            let r = dev.write ctx.device_info.fd (slice buf (len - suc left) n) w in
            elim r.0 [
              | none ↦ some (false, r.1)
              | some ret ↦
                  write_data_loop fuel ctx block_size buf len (suc left - ret) (n - ret) r.1
            ]
      ]

  -- Whether it returns 0. `posix_memalign` tells whether there is memory for the aligned buffer.
  unfoldable pub write_data_to_device :
      (ℕ → W → Bool × W) → ℕ → Context → List ℕ → W → Option (Bool × W)
  write_data_to_device posix_memalign fuel ctx buf w =
      let len = length buf in
      let block = ctx.device_info.optimal_block_size in
      let aligned = posix_memalign len w in
      elim aligned.0 [
        | false ↦ some (false, aligned.1)
        | true ↦
            write_data_loop fuel ctx (if ltb block len then block else len) buf len len 0 aligned.1
      ]
