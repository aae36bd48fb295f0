-- ===== src/Buffers.antt =====
-- The copies of the beginning and of the middle of the device, mfst.c, which identify the device
-- when it comes back. A byte position is an unsigned 64-bit number. Each update also tells whether
-- it saves the state; `saved` is what `save_state` of state.c returns, success or not, and a
-- failure turns state saving off, as `save_state_error` does.
pub mod Mirror
use mfst.Common.{
  ℕ, ◌+◌, ◌-◌, ◌%◌, ◌^◌, Bool, true, false, ◌&&◌, ◌||◌, List, if◌then◌else◌, ltb, leb, take, drop,
}
use mfst.Common.Memory.{memcpy}
use mfst.Context.{Context, device_info_delete_state_file_name}

unfoldable pub was_bod_area_affected : Context → ℕ → Bool
was_bod_area_affected ctx starting_byte = ltb starting_byte ctx.device_info.bod_mod_buffer_size

unfoldable pub was_mod_area_affected : Context → ℕ → ℕ → Bool
was_mod_area_affected ctx starting_byte ending_byte =
    let middle = ctx.device_info.middle_of_device in
    let end = middle + ctx.device_info.bod_mod_buffer_size in
    (leb middle starting_byte && ltb starting_byte end)
    || (leb middle ending_byte && ltb ending_byte end)

-- `if(save_state(...)) { save_state_error(...); }`
unfoldable pub after_save : Bool → Context → Context
after_save saved ctx = if saved then ctx else device_info_delete_state_file_name ctx

unfoldable pub update_bod_buffer : Bool → Context → ℕ → List ℕ → ℕ → Context
update_bod_buffer saved ctx starting_byte buffer num_bytes =
    let size = ctx.device_info.bod_mod_buffer_size in
    let bytes_to_copy =
      if ltb size (num_bytes + starting_byte) then size - starting_byte else num_bytes in
    let bod = memcpy ctx.device_info.bod_buffer starting_byte (take bytes_to_copy buffer) in
    if was_bod_area_affected ctx starting_byte
    then after_save saved
        (record ctx { device_info = record (ctx.device_info) { bod_buffer = bod } })
    else ctx

-- The `memcpy` of `update_mod_buffer`, with its three numbers.
unfoldable pub copy_to_mod : Context → ℕ → List ℕ → ℕ → List ℕ
copy_to_mod ctx starting_byte buffer num_bytes =
    let size = ctx.device_info.bod_mod_buffer_size in
    let middle = ctx.device_info.middle_of_device in
    let mod_data = ctx.device_info.mod_buffer in
    if ltb starting_byte middle
    then (let buffer_offset = middle - starting_byte in
        let rest = num_bytes - buffer_offset in
        let bytes_to_copy = if ltb size rest then size else rest in
        memcpy mod_data 0 (take bytes_to_copy (drop buffer_offset buffer)))
    else (let offset = starting_byte - middle in
        let bytes_to_copy = if ltb size (offset + num_bytes) then size - offset else num_bytes in
        memcpy mod_data offset (take bytes_to_copy buffer))

-- `starting_byte + num_bytes - 1` is computed modulo 2^64.
unfoldable pub update_mod_buffer : Bool → Context → ℕ → List ℕ → ℕ → Context
update_mod_buffer saved ctx starting_byte buffer num_bytes =
    let mod_data = copy_to_mod ctx starting_byte buffer num_bytes in
    if was_mod_area_affected ctx starting_byte ((starting_byte + num_bytes + (2 ^ 64 - 1)) % 2 ^ 64)
    then after_save saved
        (record ctx { device_info = record (ctx.device_info) { mod_buffer = mod_data } })
    else ctx

unfoldable pub update_bod_mod_buffers : Bool → Bool → Context → ℕ → List ℕ → ℕ → Context
update_bod_mod_buffers saved saved_again ctx starting_byte buffer num_bytes =
    update_mod_buffer saved_again (update_bod_buffer saved ctx starting_byte buffer num_bytes)
      starting_byte buffer num_bytes
