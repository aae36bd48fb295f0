-- ===== src/Sector.antt =====
-- The contents of a sector, mfst.c: the sector number, the round number, the UUID of the device and
-- the CRC-32C that are embedded in the random data before it is written, and how they are read
-- back. A buffer is the list of its bytes; the host is little-endian; a 64-bit integer, signed or
-- not, is its bit pattern. `calculate_crc32c` of crc32.c is third-party code: the parameter `crc`.
pub mod Words
pub mod Uuid
pub mod Prepare
pub mod Blocks
use mfst.Common.{
  ℕ, zero, suc, ◌+◌, ◌-◌, ◌*◌, ◌^◌, List, [], ◌∷◌, bit_or, bit_xor, get_or, set, take,
}
use mfst.Common.Memory.{memcpy, slice, le_bytes, from_le}
use mfst.Context.{Context}

-- The two functions below differ in where they start: byte 32 or byte 33.
abbrev pub xor_val_from : ℕ → List ℕ → ℕ
xor_val_from first udata =
    let at = λ (n : ℕ). get_or udata (first + n) 0 in
    bit_or
      (bit_or
        (bit_or
          (bit_or
            (bit_or (bit_or (bit_or (at 0 * 2 ^ 56) (at 16 * 2 ^ 48)) (at 32 * 2 ^ 40))
              (at 48 * 2 ^ 32))
            (at 64 * 2 ^ 24))
          (at 80 * 2 ^ 16))
        (at 96 * 2 ^ 8))
      (at 112)

unfoldable pub get_sector_number_xor_val : List ℕ → ℕ
get_sector_number_xor_val data_bytes = xor_val_from 32 data_bytes

unfoldable pub get_round_num_xor_val : List ℕ → ℕ
get_round_num_xor_val data_bytes = xor_val_from 33 data_bytes

-- The loop of `embed_device_uuid`, with the rounds left.
unfoldable pub embed_uuid_from : List ℕ → ℕ → ℕ → List ℕ → List ℕ
embed_uuid_from uuid zero i data_bytes = data_bytes
embed_uuid_from uuid (suc left) i data_bytes =
    embed_uuid_from uuid left (i + 1)
      (set data_bytes (i + 16) (bit_xor (get_or uuid i 0) (get_or data_bytes (i * 16 + 34) 0)))

unfoldable pub embed_device_uuid : List ℕ → List ℕ → List ℕ
embed_device_uuid uuid data_bytes = embed_uuid_from uuid 16 0 data_bytes

-- The loop of `get_embedded_device_uuid`, as the bytes that it stores.
unfoldable pub embedded_uuid_from : ℕ → ℕ → List ℕ → List ℕ
embedded_uuid_from zero i data_bytes = []
embedded_uuid_from (suc left) i data_bytes =
    bit_xor (get_or data_bytes (i + 16) 0) (get_or data_bytes (i * 16 + 34) 0)
    ∷ embedded_uuid_from left (i + 1) data_bytes

unfoldable pub get_embedded_device_uuid : List ℕ → List ℕ
get_embedded_device_uuid data_bytes = embedded_uuid_from 16 0 data_bytes

unfoldable pub embed_sector_number : List ℕ → ℕ → List ℕ
embed_sector_number data_bytes sector_number =
    memcpy data_bytes 0 (le_bytes 8 (bit_xor sector_number (get_sector_number_xor_val data_bytes)))

unfoldable pub embed_round_number : List ℕ → ℕ → List ℕ
embed_round_number data_bytes round_num =
    memcpy data_bytes 8 (le_bytes 8 (bit_xor round_num (get_round_num_xor_val data_bytes)))

unfoldable pub decode_embedded_sector_number : List ℕ → ℕ
decode_embedded_sector_number data_bytes =
    bit_xor (from_le (slice data_bytes 0 8)) (get_sector_number_xor_val data_bytes)

unfoldable pub decode_embedded_round_number : List ℕ → ℕ
decode_embedded_round_number data_bytes =
    bit_xor (from_le (slice data_bytes 8 8)) (get_round_num_xor_val data_bytes)

unfoldable pub get_embedded_crc32c : List ℕ → ℕ → ℕ
get_embedded_crc32c data_bytes sector_size = from_le (slice data_bytes (sector_size - 4) 4)

module _ (crc : ℕ → List ℕ → ℕ) where
  unfoldable pub embed_crc32c : List ℕ → ℕ → List ℕ
  embed_crc32c data_bytes sector_size =
      memcpy data_bytes (sector_size - 4) (le_bytes 4 (crc 0 (take (sector_size - 4) data_bytes)))

  -- One round of the loop of `prepare_endurance_test_block`, on the sector at `buffer + i * size`.
  unfoldable pub prepare_sector : Context → ℕ → List ℕ → List ℕ
  prepare_sector ctx sector_number data_bytes =
      let numbered = embed_sector_number data_bytes sector_number in
      let rounded = embed_round_number numbered ctx.endurance_test_info.rounds_completed in
      let named = embed_device_uuid ctx.device_info.device_uuid rounded in
      embed_crc32c named ctx.device_info.sector_size

  -- The loop from round `i` on, with the rounds left.
  unfoldable pub prepare_from : Context → ℕ → ℕ → ℕ → List ℕ → List ℕ
  prepare_from ctx starting_sector zero i buffer = buffer
  prepare_from ctx starting_sector (suc left) i buffer =
      let size = ctx.device_info.sector_size in
      let sector = prepare_sector ctx (starting_sector + i) (slice buffer (i * size) size) in
      prepare_from ctx starting_sector left (i + 1) (memcpy buffer (i * size) sector)

  unfoldable pub prepare_endurance_test_block : Context → List ℕ → ℕ → ℕ → List ℕ
  prepare_endurance_test_block ctx buffer num_sectors starting_sector =
      prepare_from ctx starting_sector num_sectors 0 buffer
