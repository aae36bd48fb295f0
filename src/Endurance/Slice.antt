-- ===== src/Endurance/Slice.antt =====
-- `endurance_test_write_slice`: the random data of a slice, written block by block, and again from
-- the start when the device was gone in between. `posix_memalign` gives `write_buffer`, with
-- whatever it holds, or `none`. The statistics file and the screen are left out.
use mfst.Common.{
  ℕ, zero, suc, ◌+◌, ◌-◌, ◌*◌, ◌/◌, true, false, Option, none, some, List, if◌then◌else◌, ltb,
}
use mfst.Context.{Context}
use mfst.Device.{Device, St, is_none}
use mfst.Rng.{rng_reseed, rng_fill_buffer}
use mfst.SectorMap.{mark_sectors_written, reset_sector_map_partial}
use mfst.Slices.{get_slice_start, slice_end}
use mfst.Sector.{prepare_endurance_test_block}
use mfst.Io.{andthen, lseek_or_retry}
use mfst.Endurance.{with_ctx}
use mfst.Endurance.Writes.{seek_error, endurance_test_write_block}

-- The sectors of the block that begins at `cur_sector`, at most `sectors_per_block`.
unfoldable pub sectors_in_block : ℕ → ℕ → ℕ → ℕ
sectors_in_block cur_sector last_sector sectors_per_block =
    if ltb last_sector (cur_sector + sectors_per_block)
    then last_sector - cur_sector
    else sectors_per_block

unfoldable pub reseed : ℕ → Context → Context
reseed seed ctx = record ctx {
  endurance_test_info = record (ctx.endurance_test_info) {
    rng_state = rng_reseed ctx.endurance_test_info.rng_state seed;
  };
}

module _ (random : ℕ → ℕ → ℕ) (crc : ℕ → List ℕ → ℕ) where
  -- The data of a block: `rng_fill_buffer`, then `prepare_endurance_test_block`.
  unfoldable pub fill_block : Context → List ℕ → ℕ → ℕ → List ℕ × Context
  fill_block ctx buffer cur_sector sectors =
      let info = ctx.endurance_test_info in
      let size = sectors * ctx.device_info.sector_size in
      let (bytes, rng) = rng_fill_buffer random buffer size info.rng_state in
      let ctx' = record ctx { endurance_test_info = record info { rng_state = rng } } in
      (prepare_endurance_test_block crc ctx' bytes sectors cur_sector, ctx')

  -- `affected` and `bytes_affected`: two variables without a value, see `endurance_test_write_block`.
  module _ (affected bytes_affected : ℕ) {W : Type 0} (dev : Device W) where
    -- The `for` loop over the blocks. The value -1, after which the source gives up, is not among
    -- those that `endurance_test_write_block` returns.
    unfoldable pub write_blocks : ℕ → ℕ → ℕ → ℕ → ℕ → List ℕ → St W → Option (List ℕ × St W)
    write_blocks zero inner slice_num sectors_per_block cur_sector buffer st =
        elim (ltb cur_sector (slice_end st.ctx slice_num)) [
          | true ↦ elim st.device_was_disconnected [ true ↦ some (buffer, st) | false ↦ none ]
          | false ↦ some (buffer, st)
        ]
    write_blocks (suc fuel) inner slice_num sectors_per_block cur_sector buffer st =
        let last_sector = slice_end st.ctx slice_num in
        let sectors = sectors_in_block cur_sector last_sector sectors_per_block in
        let filled = fill_block st.ctx buffer cur_sector sectors in
        elim (ltb cur_sector last_sector) [
          | false ↦ some (buffer, st)
          | true ↦ elim st.device_was_disconnected [
            | true ↦ some (buffer, st)
            | false ↦
                andthen
                  (endurance_test_write_block dev inner inner affected bytes_affected cur_sector
                    sectors filled.0 (with_ctx st filled.1))
                  λ ret st.
                    let marked : Context = elim st.device_was_disconnected [
                      | true ↦
                          reset_sector_map_partial st.ctx (get_slice_start st.ctx slice_num)
                            last_sector
                      | false ↦ mark_sectors_written st.ctx cur_sector (cur_sector + sectors)
                    ] in
                    write_blocks fuel inner slice_num sectors_per_block (cur_sector + sectors)
                      filled.0 (with_ctx st marked)
          ]
        ]

    -- The `do` loop: the slice until the device stays. The result is what the function returns.
    unfoldable pub write_slice_loop : ℕ → ℕ → ℕ → ℕ → ℕ → List ℕ → St W → Option (ℕ × St W)
    write_slice_loop zero inner seed slice_num sectors_per_block buffer st = none
    write_slice_loop (suc fuel) inner seed slice_num sectors_per_block buffer st =
        let start = get_slice_start st.ctx slice_num in
        let fresh = record st { ctx = reseed seed st.ctx; device_was_disconnected = false } in
        andthen (lseek_or_retry dev inner true (start * st.ctx.device_info.sector_size) fresh)
          λ offset st. elim (is_none offset) [
            | true ↦ some (seek_error, st)
            | false ↦
                andthen (write_blocks inner inner slice_num sectors_per_block start buffer st)
                  λ buffer st. elim st.device_was_disconnected [
                    | true ↦ write_slice_loop fuel inner seed slice_num sectors_per_block buffer st
                    | false ↦ some (0, st)
                  ]
          ]

    unfoldable pub endurance_test_write_slice :
        ℕ → Option (List ℕ) → ℕ → ℕ → St W → Option (Option ℕ × St W)
    endurance_test_write_slice fuel none seed slice_num st = some (none, st)
    endurance_test_write_slice fuel (some write_buffer) seed slice_num st =
        let sectors_per_block =
          st.ctx.device_info.optimal_block_size / st.ctx.device_info.sector_size in
        andthen (write_slice_loop fuel fuel seed slice_num sectors_per_block write_buffer st)
          λ ret st. some (some ret, st)
