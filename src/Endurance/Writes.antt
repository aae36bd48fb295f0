-- ===== src/Endurance/Writes.antt =====
-- `endurance_test_write_block`: the code that it returns. Two of its variables have no value until
-- a part of the block is done: they are arguments.
use mfst.Common.{
  ℕ, zero, suc, ◌+◌, ◌-◌, ◌*◌, ◌/◌, ◌%◌, ◌^◌, Bool, true, false, ◌||◌, Option, none, some, List,
  drop, ◌==◌,
}
use mfst.Common.Memory.{slice}
use mfst.Context.{Context}
use mfst.Device.{Device, St, is_none, call}
use mfst.Io.{andthen, lseek_or_retry}
use mfst.Io.Transfers.{write_or_reset_device}
use mfst.SectorMap.{get_max_writable_sectors, get_max_unwritable_sectors}
use mfst.Buffers.{
  was_bod_area_affected, was_mod_area_affected, update_bod_buffer, update_mod_buffer,
}
use mfst.Endurance.{
  minus_one, with_ctx, give_up_sector, count_shown, count_written, count_failed_write,
}

-- The variables that a round leaves to the next.
pub record Progress : Type 0 where
  pub num_bytes_remaining : ℕ
  pub num_sectors_affected_this_round : ℕ
  pub num_bytes_affected_this_round : ℕ
  pub ret : ℕ

abbrev pub write_error : ℕ
write_error = 2

abbrev pub seek_error : ℕ
seek_error = 3

abbrev pub Next : Type 0 → Type 0
Next W = Progress → St W → Option (ℕ × St W)

module _ {W : Type 0} (dev : Device W) where
  -- `save_state` under the test of an update.
  unfoldable pub save_if : Bool → Context → St W → Bool × St W
  save_if false ctx st = (true, st)
  save_if true ctx st = call (dev.save_state ctx) st

  unfoldable pub save_bod : ℕ → List ℕ → ℕ → St W → St W
  save_bod starting_byte buffer num_bytes st =
      let affected = was_bod_area_affected st.ctx starting_byte in
      let saved =
        save_if affected (update_bod_buffer true st.ctx starting_byte buffer num_bytes) st in
      with_ctx saved.1 (update_bod_buffer saved.0 st.ctx starting_byte buffer num_bytes)

  unfoldable pub save_mod : ℕ → List ℕ → ℕ → St W → St W
  save_mod starting_byte buffer num_bytes st =
      let affected =
        was_mod_area_affected st.ctx starting_byte
          ((starting_byte + num_bytes + (2 ^ 64 - 1)) % 2 ^ 64) in
      let saved =
        save_if affected (update_mod_buffer true st.ctx starting_byte buffer num_bytes) st in
      with_ctx saved.1 (update_mod_buffer saved.0 st.ctx starting_byte buffer num_bytes)

  -- `update_bod_mod_buffers`, with `save_state`.
  unfoldable pub update_buffers : ℕ → List ℕ → ℕ → St W → St W
  update_buffers starting_byte buffer num_bytes st =
      save_mod starting_byte buffer num_bytes (save_bod starting_byte buffer num_bytes st)

  -- The end of a round.
  unfoldable pub finish_round : ℕ → ℕ → List ℕ → Next W → Next W
  finish_round current_byte starting_byte buffer next p st =
      let updated =
        update_buffers current_byte (drop (current_byte - starting_byte) buffer)
          p.num_bytes_affected_this_round st in
      next p (with_ctx updated (count_written (count_shown updated.ctx p.ret) p.ret))

  -- A round from the end of the write on, with `num_bytes_written` and `num_sectors_remaining`.
  unfoldable pub skip_unwritable : ℕ → ℕ → ℕ → ℕ → ℕ → List ℕ → Next W → Next W
  skip_unwritable inner starting_sector current_byte num_bytes_written num_sectors_remaining buffer
        next p st =
      let size = st.ctx.device_info.sector_size in
      let starting_byte = starting_sector * size in
      let n =
        get_max_unwritable_sectors st.ctx (starting_sector + num_bytes_written / size)
          num_sectors_remaining in
      let affected = p.num_sectors_affected_this_round + n in
      let skipped = record p {
        num_bytes_remaining = p.num_bytes_remaining - n * size;
        num_sectors_affected_this_round = affected;
        num_bytes_affected_this_round = affected * size;
      } in
      elim st.device_was_disconnected [
        | true ↦ some (0, st)
        | false ↦ elim (n == 0) [
          | true ↦ finish_round current_byte starting_byte buffer next p st
          | false ↦
              andthen
                (lseek_or_retry dev inner true (starting_byte + (num_bytes_written + n * size)) st)
                λ offset st. elim (is_none offset) [
                  | true ↦ some (seek_error, st)
                  | false ↦ finish_round current_byte starting_byte buffer next skipped st
                ]
        ]
      ]

  -- A round after `write_or_reset_device`, by what it returned.
  unfoldable pub after_write : ℕ → ℕ → ℕ → ℕ → ℕ → List ℕ → Next W → Option ℕ → Next W
  after_write inner starting_sector num_sectors current_byte num_bytes_written buffer next (some n)
        p st =
      let size = st.ctx.device_info.sector_size in
      let written = num_bytes_written + n in
      let sectors = written / size in
      skip_unwritable inner starting_sector current_byte written (num_sectors - sectors) buffer next
        (record {
          num_bytes_remaining = p.num_bytes_remaining - n;
          num_sectors_affected_this_round = sectors;
          num_bytes_affected_this_round = sectors * size;
          ret = n;
        })
        st
  after_write inner starting_sector num_sectors current_byte num_bytes_written buffer next none p
        st =
      let size = st.ctx.device_info.sector_size in
      let current_sector = starting_sector + num_bytes_written / size in
      elim (is_none st.ctx.device_info.fd) [
        | true ↦ some (write_error, st)
        | false ↦
            let marked = give_up_sector (count_failed_write st.ctx current_sector) current_sector in
            andthen (lseek_or_retry dev inner true (current_byte + size) (with_ctx st marked))
              λ offset st. elim (is_none offset) [
                | true ↦ some (seek_error, st)
                | false ↦
                    next
                      (record p {
                        num_bytes_remaining = p.num_bytes_remaining - size;
                        ret = minus_one;
                      })
                      st
              ]
      ]

  unfoldable pub write_block_loop : ℕ → ℕ → ℕ → ℕ → List ℕ → Next W
  write_block_loop zero inner starting_sector num_sectors buffer p st =
      elim (p.num_bytes_remaining == 0 || st.device_was_disconnected) [
        | true ↦ some (0, st)
        | false ↦ none
      ]
  write_block_loop (suc fuel) inner starting_sector num_sectors buffer p st =
      let next = write_block_loop fuel inner starting_sector num_sectors buffer in
      let size = st.ctx.device_info.sector_size in
      let remaining = p.num_bytes_remaining / size in
      let sectors = num_sectors - remaining in
      let current_byte = (starting_sector + sectors) * size in
      let n = get_max_writable_sectors st.ctx (starting_sector + sectors) remaining in
      elim (p.num_bytes_remaining == 0 || st.device_was_disconnected) [
        | true ↦ some (0, st)
        | false ↦ elim (n == 0) [
          | true ↦
              skip_unwritable inner starting_sector current_byte (sectors * size) remaining buffer
                next p st
          | false ↦
              andthen
                (write_or_reset_device dev inner (slice buffer (sectors * size) (n * size))
                  current_byte st)
                λ ret st.
                  after_write inner starting_sector num_sectors current_byte (sectors * size) buffer
                    next ret p st
        ]
      ]

  -- `affected` and `bytes_affected` are what the two variables without a value hold.
  unfoldable pub endurance_test_write_block :
      ℕ → ℕ → ℕ → ℕ → ℕ → ℕ → List ℕ → St W → Option (ℕ × St W)
  endurance_test_write_block fuel inner affected bytes_affected starting_sector num_sectors buffer
        st =
      write_block_loop fuel inner starting_sector num_sectors buffer
        (record {
          num_bytes_remaining = num_sectors * st.ctx.device_info.sector_size;
          num_sectors_affected_this_round = affected;
          num_bytes_affected_this_round = bytes_affected;
          ret = 0;
        })
        (record st { device_was_disconnected = false })
