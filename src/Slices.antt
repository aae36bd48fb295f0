-- ===== src/Slices.antt =====
-- The slices of the endurance test in mfst.c: where they start, the random order in which they
-- are visited, and the seed of each.
pub mod Order
pub mod Cover
pub mod Seeds
use mfst.Common.{
  ℕ, zero, suc, ◌+◌, ◌-◌, ◌*◌, ◌/◌, ◌%◌, ◌^◌, List, [], ◌∷◌, bit_and, get_or, ◌==◌, if◌then◌else◌,
}
use mfst.Context.{Context, RngState}
use mfst.Rng.{rng_get_random_number}

abbrev pub num_slices : ℕ
num_slices = 16

-- `int` values 0 .. n - 1, as the loop `source[i] = i` leaves them
unfoldable pub count_from : ℕ → ℕ → List ℕ
count_from zero i = []
count_from (suc n) i = i ∷ count_from n (i + 1)

-- `for(k...) if(k != j) temp[l++] = source[k]`, from index `k` on
unfoldable pub copy_except : ℕ → ℕ → List ℕ → List ℕ
copy_except k j [] = []
copy_except k j (x ∷ source) =
    let rest = copy_except (k + 1) j source in if k == j then rest else x ∷ rest

module _ (random : ℕ → ℕ → ℕ) where
  -- The main loop of `random_list`, with `left` items in `source`. RAND_MAX is 2 ^ 31 - 1.
  unfoldable pub pick_all : ℕ → List ℕ → RngState → List ℕ × RngState
  pick_all zero source s = ([], s)
  pick_all (suc left) source s =
      let (r, s') = rng_get_random_number random s in
      let j = bit_and r (2 ^ 31 - 1) % suc left in
      let (rest, s'') = pick_all left (copy_except 0 j source) s' in (get_or source j 0 ∷ rest, s'')

  unfoldable pub random_list : RngState → List ℕ × RngState
  random_list s = pick_all num_slices (count_from num_slices 0) s

unfoldable pub get_slice_start : Context → ℕ → ℕ
get_slice_start ctx slice_num = ctx.device_info.num_physical_sectors / num_slices * slice_num

-- One sector past the last sector of a slice, as `endurance_test_write_slice` and the read loop of
-- `main` set it.
unfoldable pub slice_end : Context → ℕ → ℕ
slice_end ctx slice_num =
    if slice_num == num_slices - 1
    then ctx.device_info.num_physical_sectors
    else get_slice_start ctx (slice_num + 1)

-- The seed of a slice in a round, `unsigned int`.
unfoldable pub slice_seed : ℕ → ℕ → ℕ → ℕ
slice_seed initial_seed slice_num rounds_completed =
    (initial_seed + slice_num + rounds_completed * num_slices) % 2 ^ 32
