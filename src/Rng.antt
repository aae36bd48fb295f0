-- ===== src/Rng.antt =====
-- rng.c: the pseudo-random numbers that fill the sectors.
--
-- random_r of the C library is the parameter `random`: the number that it gives after `drawn`
-- draws from the seed `seeded`, between 0 and 2 ^ 31 - 1. An `int32_t` is its bit pattern, and a
-- buffer of them is stored lowest byte first.
pub mod Bits
pub mod Fill
use mfst.Common.{ℕ, zero, suc, ◌+◌, ◌-◌, ◌*◌, ◌/◌, ◌%◌, ◌^◌, List, [], ◌++◌, bit_and, bit_or}
use mfst.Common.Memory.{le_bytes, memcpy}
use mfst.Context.{RngState}

unfoldable pub rng_init : RngState → ℕ → RngState
rng_init s seed = record s { current_seed = seed; seeded = seed; drawn = 0 }

unfoldable pub rng_reseed : RngState → ℕ → RngState
rng_reseed s seed = record s { current_seed = seed; seeded = seed; drawn = 0 }

-- `(seed & result & 1) | (~(seed & (result >> 1)) & 1)`
abbrev pub top_bit : ℕ → ℕ → ℕ
top_bit seed result =
    bit_or (bit_and (bit_and seed result) 1) (1 - bit_and (bit_and seed (result / 2)) 1)

module _ (random : ℕ → ℕ → ℕ) where
  unfoldable pub rng_get_random_number : RngState → ℕ × RngState
  rng_get_random_number s =
      let result = random s.seeded s.drawn in
      (
        bit_or result (top_bit s.current_seed result * 2 ^ 31) % 2 ^ 32,
        record s { drawn = s.drawn + 1 },
      )

  -- The loop of `rng_fill_buffer`, as the bytes that it writes in the rounds left.
  unfoldable pub fill_words : ℕ → RngState → List ℕ × RngState
  fill_words zero s = ([], s)
  fill_words (suc left) s =
      let (word, s') = rng_get_random_number s in
      let (rest, s'') = fill_words left s' in (le_bytes 4 word ++ rest, s'')

  unfoldable pub rng_fill_buffer : List ℕ → ℕ → RngState → List ℕ × RngState
  rng_fill_buffer buffer size s =
      let (bytes, s') = fill_words (size / 4) s in (memcpy buffer 0 bytes, s')
