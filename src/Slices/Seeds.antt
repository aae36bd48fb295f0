-- ===== src/Slices/Seeds.antt =====
-- The seeds of the slices.
use mfst.Common.{ℕ, ◌^◌, ◌<◌, ◌≡◌, arith}
use mfst.Slices.{slice_seed}

-- Within 2^28 rounds every slice of every round has a seed of its own.
pub slice_seed_injective :
    (initial_seed slice slice' round round' : ℕ)
    → slice < 16
    → slice' < 16
    → round < 2 ^ 28
    → round' < 2 ^ 28
    → slice_seed initial_seed slice round ≡ slice_seed initial_seed slice' round'
    → (slice ≡ slice') × (round ≡ round')
unfolding slice_seed
slice_seed_injective i a b r r' ha hb hr hr' e = omega arith
