-- ===== src/Endurance/Reads.antt =====
-- `endurance_test_read_block`: whether it returns 0, and the buffer it leaves.
use mfst.Common.{
  ℕ, zero, suc, ◌+◌, ◌-◌, ◌*◌, ◌/◌, Bool, true, false, Option, none, some, List, length, ◌==◌,
}
use mfst.Common.Memory.{memcpy}
use mfst.Device.{Device, St, is_none, call}
use mfst.Io.{andthen, lseek_or_retry}
use mfst.Io.Transfers.{read_or_reset_device}
use mfst.SectorMap.{get_max_writable_sectors, get_max_unwritable_sectors}
use mfst.Endurance.{or_minus_one, with_ctx, give_up_sector, count_shown, clear_bytes}

-- What comes after a part of the block: the bytes left to read and the buffer.
abbrev pub Next : Type 0 → Type 0
Next W = ℕ → List ℕ → St W → Option ((Bool × List ℕ) × St W)

module _ {W : Type 0} (dev : Device W) where
  -- Seek behind what is done so far, and go on.
  unfoldable pub seek_and : ℕ → ℕ → ℕ → Next W → Next W
  seek_and inner starting_sector block_size next bytes_left buffer st =
      let position = starting_sector * st.ctx.device_info.sector_size + (block_size - bytes_left) in
      andthen (lseek_or_retry dev inner false position st) λ offset st. elim (is_none offset) [
        | true ↦ some ((false, buffer), st)
        | false ↦ next bytes_left buffer st
      ]

  -- The second half of a round: the sectors flagged as unwritable read as zeroes.
  unfoldable pub read_unwritable : ℕ → ℕ → ℕ → Next W → Next W
  read_unwritable inner starting_sector block_size next bytes_left buffer st =
      let size = st.ctx.device_info.sector_size in
      let done = block_size - bytes_left in
      let n =
        get_max_unwritable_sectors st.ctx (starting_sector + done / size) (bytes_left / size) in
      elim (bytes_left == 0) [
        | true ↦ next bytes_left buffer st
        | false ↦ elim (n == 0) [
          | true ↦ next bytes_left buffer st
          | false ↦
              seek_and inner starting_sector block_size next (bytes_left - n * size)
                (clear_bytes buffer done (n * size)) st
        ]
      ]

  -- The first half of a round, by what `read_or_reset_device` returned.
  unfoldable pub after_read : ℕ → ℕ → ℕ → Next W → Option (List ℕ) → Next W
  after_read inner starting_sector block_size next (some bytes) bytes_left buffer st =
      read_unwritable inner starting_sector block_size next (bytes_left - length bytes)
        (memcpy buffer (block_size - bytes_left) bytes)
        (with_ctx st (count_shown st.ctx (length bytes)))
  after_read inner starting_sector block_size next none bytes_left buffer st =
      let size = st.ctx.device_info.sector_size in
      let done = block_size - bytes_left in
      elim (is_none st.ctx.device_info.fd) [
        | true ↦ some ((false, buffer), st)
        | false ↦
            seek_and inner starting_sector block_size next (bytes_left - size)
              (clear_bytes buffer done size)
              (with_ctx st (give_up_sector st.ctx (starting_sector + done / size)))
      ]

  unfoldable pub read_block_loop : ℕ → ℕ → ℕ → ℕ → Next W
  read_block_loop zero inner starting_sector block_size bytes_left buffer st =
      elim (bytes_left == 0) [ true ↦ some ((true, buffer), st) | false ↦ none ]
  read_block_loop (suc fuel) inner starting_sector block_size bytes_left buffer st =
      let next = read_block_loop fuel inner starting_sector block_size in
      let size = st.ctx.device_info.sector_size in
      let current = starting_sector + (block_size - bytes_left) / size in
      let n = get_max_writable_sectors st.ctx current (bytes_left / size) in
      elim (bytes_left == 0) [
        | true ↦ some ((true, buffer), st)
        | false ↦ elim (n == 0) [
          | true ↦ read_unwritable inner starting_sector block_size next bytes_left buffer st
          | false ↦
              let here = call (dev.tell st.ctx.device_info.fd) st in
              andthen (read_or_reset_device dev inner (n * size) (or_minus_one here.0) here.1)
                λ ret st. after_read inner starting_sector block_size next ret bytes_left buffer st
        ]
      ]

  unfoldable pub endurance_test_read_block :
      ℕ → ℕ → ℕ → ℕ → List ℕ → St W → Option ((Bool × List ℕ) × St W)
  endurance_test_read_block fuel inner starting_sector num_sectors buffer st =
      let block_size = st.ctx.device_info.sector_size * num_sectors in
      read_block_loop fuel inner starting_sector block_size block_size buffer st
