-- ===== src/Rng/Bits.antt =====
-- The bits of one random number.
use mfst.Common.{ℕ, ◌+◌, ◌-◌, ◌*◌, ◌/◌, ◌%◌, ◌^◌, ◌<◌, ◌≡◌, refl, ap₂, arith, bit_and, bit_or, min}
use mfst.Common.Bits.{bit_and_step, bit_and_flag, bit_or_fields, bit_or-lt}
use mfst.Context.{RngState}
use mfst.Rng.{top_bit, rng_get_random_number}

low_one : (a : ℕ) → bit_and a 1 ≡ a % 2
low_one a = omega (arith, bit_and_flag 0 a)

low_and : (a b : ℕ) → bit_and (bit_and a b) 1 ≡ min (a % 2) (b % 2)
low_and a b = omega (arith, low_one (bit_and a b), bit_and_step a b)

top_bit-lt : (seed result : ℕ) → top_bit seed result < 2
top_bit-lt seed result =
    bit_or-lt 1 (bit_and (bit_and seed result) 1) (1 - bit_and (bit_and seed (result / 2)) 1)
      (omega (arith, low_and seed result)) (omega arith)

module _ (random : ℕ → ℕ → ℕ) (in_range : (seed n : ℕ) → random seed n < 2 ^ 31) where
  number_as_sum :
      (s : RngState)
      → (rng_get_random_number random s).0
        ≡ random s.seeded s.drawn + top_bit s.current_seed (random s.seeded s.drawn) * 2 ^ 31
  unfolding rng_get_random_number
  number_as_sum s =
      let r = random s.seeded s.drawn in
      omega (
        arith,
        in_range s.seeded s.drawn,
        bit_or_fields 31 r (top_bit s.current_seed r) (in_range s.seeded s.drawn),
        top_bit-lt s.current_seed r,
      )

  -- A random number fits 32 bits, its low 31 bits are what random_r gives, and the state advances
  -- by one draw; random_r gives numbers below 2^31.
  pub rng_get_random_number_lem :
      (s : RngState)
      → let (word, s') = rng_get_random_number random s in
        (word < 2 ^ 32)
        × (word % 2 ^ 31 ≡ random s.seeded s.drawn)
        × (s' ≡ record s { drawn = s.drawn + 1 })
  unfolding rng_get_random_number
  rng_get_random_number_lem s =
      (omega arith, omega (arith, number_as_sum s, in_range s.seeded s.drawn), refl)

  -- With an even current seed the top bit of every random number is set, whatever random_r gives
  -- below 2^31.
  pub top_bit_stuck :
      (s : RngState) → s.current_seed % 2 ≡ 0 → (rng_get_random_number random s).0 / 2 ^ 31 ≡ 1
  top_bit_stuck s even =
      let r = random s.seeded s.drawn in
      let set : top_bit s.current_seed r ≡ 1 =
        ap₂ bit_or {x = bit_and (bit_and s.current_seed r) 1} {y = 0} {v = 1}
          (omega (arith, low_and s.current_seed r, even))
          (omega (arith, low_and s.current_seed (r / 2), even)) in
      omega (arith, number_as_sum s, set, in_range s.seeded s.drawn)
