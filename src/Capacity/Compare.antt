-- ===== src/Capacity/Compare.antt =====
-- The comparison of a slice with what was written, in the capacity test of mfst.c.
use mfst.Common.{
  ℕ, zero, suc, ◌+◌, ◌*◌, ◌/◌, ◌≤◌, ◌<◌, ◌≡◌, refl, ap, ap₂, subst, arith, Bool, true, false,
  Option, none, some, List,
}
use mfst.Common.Memory.{slice}
use mfst.Capacity.{compare_slice}
use mfst.Verify.{same_bytes}
use native.Mathlib.Decide.{dec_lt}
use native.Mathlib.Nat.{mul-div_cancel, suc-mul, zero-mul}

module _ (sector_size initial : ℕ) (expected found : List ℕ) where
  -- Sector `k` of the slice was read as it was written.
  abbrev pub is_same : ℕ → Bool
  is_same k =
      same_bytes (slice found (k * sector_size) sector_size)
        (slice expected (k * sector_size) sector_size)

  -- The sector behind the `k` sectors that are good, or `low` when there is none.
  abbrev pub low_after : ℕ → ℕ → ℕ
  low_after low zero = low
  low_after low (suc k) = initial + suc k

  -- All of `n` sectors are good, or the difference is at the first sector that is not.
  abbrev pub Compared : ℕ → ℕ → Option ℕ × ℕ → Type 0
  Compared n low (none, low') = ((i : ℕ) → i < n → is_same i ≡ true) × (low' ≡ low_after low n)
  Compared n low (some j, low') =
      (k : ℕ) × (k < n)
      × (j ≡ k * sector_size)
      × ((i : ℕ) → i < k → is_same i ≡ true)
      × (is_same k ≡ false)
      × (low' ≡ low_after low k)

module _ (sector_size initial : ℕ) (expected found : List ℕ) (positive : 1 ≤ sector_size) where
  -- The loop after `m` sectors that are good, with `left` sectors left.
  compare_slice_from :
      (low n left m : ℕ)
      → m + left ≡ n
      → ((i : ℕ) → i < m → is_same sector_size initial expected found i ≡ true)
      → Compared sector_size initial expected found n low (
          compare_slice sector_size initial expected found left
            (m * sector_size)
            (low_after sector_size initial expected found low m))
  unfolding compare_slice
  compare_slice_from low n zero m e good =
      let same : m ≡ n = omega (arith, e) in
      (
        λ i h. good i (omega (arith, h, e)),
        ap (low_after sector_size initial expected found low) same,
      )
  compare_slice_from low n (suc left) m e good =
      judged (is_same sector_size initial expected found m) refl
        λ same. compare_slice_from low n left (suc m) (omega (arith, e)) (more same)
    where
      low_m : ℕ
      low_m = low_after sector_size initial expected found low m

      more :
          is_same sector_size initial expected found m ≡ true
          → (i : ℕ) → i < suc m
          → is_same sector_size initial expected found i ≡ true
      more same i h = elim (dec_lt i m) [
        | yes lt ↦ good i lt
        | no ge ↦
            subst (λ k. is_same sector_size initial expected found k ≡ true) {x = m} (omega arith)
              same
      ]

      -- The next position, and the sector behind this one.
      next_low : initial + suc m ≡ initial + m * sector_size / sector_size + 1
      next_low = let d = mul-div_cancel m positive in omega (arith, d)

      next_position : suc m * sector_size ≡ m * sector_size + sector_size
      next_position = suc-mul m sector_size

      judged :
          (b : Bool)
          → is_same sector_size initial expected found m ≡ b
          → (is_same sector_size initial expected found m ≡ true
              → Compared sector_size initial expected found n low (
                  compare_slice sector_size initial expected found left
                    (suc m * sector_size)
                    (initial + suc m)))
          → Compared sector_size initial expected found n low (elim b as (λ x. Option ℕ × ℕ) [
            | true ↦
                compare_slice sector_size initial expected found left
                  (m * sector_size + sector_size)
                  (initial + m * sector_size / sector_size + 1)
            | false ↦ (some (m * sector_size), low_m)
          ])
      judged true same rest =
          subst {A = ℕ × ℕ}
            (λ p.
              Compared sector_size initial expected found n low
                (compare_slice sector_size initial expected found left (p.0) (p.1)))
            (ap₂ (λ (a b : ℕ). (a, b)) next_position next_low) (rest same)
      judged false differs rest = (m, omega (arith, e), refl, good, differs, refl)

  -- Comparing a slice of the capacity test with what was written finds the offset of the first
  -- sector that differs, or none when all sectors are the same, and leaves in low the sector
  -- behind the last one that is the same, or its old value when there is none; for sectors of at
  -- least one byte.
  pub compare_slice-Compared :
      (low n : ℕ)
      → Compared sector_size initial expected found n low
          (compare_slice sector_size initial expected found n 0 low)
  compare_slice-Compared low n =
      subst
        (λ j.
          Compared sector_size initial expected found n low
            (compare_slice sector_size initial expected found n j low))
        (zero-mul sector_size)
        (compare_slice_from low n n 0 (omega arith) λ i h. absurd (omega (arith, h)))
