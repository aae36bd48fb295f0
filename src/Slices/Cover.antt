-- ===== src/Slices/Cover.antt =====
-- The slices and the sectors that lie in them.
use mfst.Common.{ℕ, zero, suc, ◌+◌, ◌*◌, ◌/◌, ◌≤◌, ◌<◌, ◌≡◌, arith}
use mfst.Context.{Context}
use mfst.Slices.{get_slice_start, slice_end}
use native.Mathlib.Decide.{dec_lt}

-- A sector before the start of slice k + 1 lies in one of the slices up to k.
among : (q k s : ℕ) → s < q * (k + 1) → (j : ℕ) × (j ≤ k) × (q * j ≤ s) × (s < q * (j + 1))
among q zero s h = (0, omega arith, omega arith, h)
among q (suc k) s h = elim (dec_lt s (q * suc k)) [
  | yes lt ↦ let r = among q k s (omega arith) in (r.0, omega arith, r.2, r.3)
  | no ge ↦ (suc k, omega arith, omega arith, h)
]

abbrev pub InSlice : Context → ℕ → ℕ → Type 0
InSlice ctx k s = (k < 16) × (get_slice_start ctx k ≤ s) × (s < slice_end ctx k)

same_slice : (ctx : Context) (s j k : ℕ) → InSlice ctx j s → InSlice ctx k s → j < k → ⊥
unfolding get_slice_start slice_end
same_slice ctx s j k a b h =
    let q = ctx.device_info.num_physical_sectors / 16 in
    let step : q * (j + 1) ≤ q * k = grind arith in
    let before : s < q * (j + 1) = ground arith in omega arith

inside :
    (ctx : Context) (k s : ℕ)
    → k ≤ 14
    → s < ctx.device_info.num_physical_sectors / 16 * (k + 1)
    → s < slice_end ctx k
unfolding get_slice_start slice_end
inside ctx k s h lt = ground arith

found :
    (ctx : Context) (s : ℕ) → s < ctx.device_info.num_physical_sectors → (k : ℕ) × InSlice ctx k s
unfolding get_slice_start slice_end
found ctx s h =
    let q = ctx.device_info.num_physical_sectors / 16 in
    elim (dec_lt s (q * 15)) [
      | yes lt ↦
          let r = among q 14 s (omega arith) in (r.0, (omega arith, r.2, inside ctx r.0 s r.1 r.3))
      | no ge ↦ (15, (omega arith, omega arith, h))
    ]

-- Every sector of the device lies in exactly one of the 16 slices, from its start up to, and
-- without, its end; the device may have fewer sectors than there are slices.
pub one_slice :
    (ctx : Context) (s : ℕ)
    → s < ctx.device_info.num_physical_sectors
    → (k : ℕ) × InSlice ctx k s × ((j : ℕ) → InSlice ctx j s → j ≡ k)
one_slice ctx s h =
    let r = found ctx s h in
    (
      r.0,
      r.1,
      λ j i. elim (dec_lt j r.0) [
        | yes lt ↦ absurd (same_slice ctx s j r.0 i r.1 lt)
        | no ge ↦ elim (dec_lt r.0 j) [
          | yes lt ↦ absurd (same_slice ctx s r.0 j r.1 i lt)
          | no le ↦ omega arith
        ]
      ],
    )
