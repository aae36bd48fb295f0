-- ===== src/Common/Memory.antt =====
-- Blocks of memory as lists: `memcpy` and slices, and the bytes of an integer, lowest first, as a
-- little-endian host stores it.
use Prim.Native.Nat.{ℕ, zero, suc, ◌+◌, ◌*◌, ◌/◌, ◌%◌, ◌^◌, ◌≤◌, ◌<◌}
use mathlib.Core.Path.{◌≡◌, refl, sym, ap, ◌∙◌}
use mathlib.Core.Logic.{◌⊎◌}
use mathlib.Core.List.{List, [], ◌∷◌}
use native.Mathlib.Nat.{pow-suc}
use native.Mathlib.Omega.{arith}
use mfst.Common.Lists.{length, get_or, take, drop, All}
use mfst.Common.Lists.{get_or_ext, length-take, length-drop, get_or-take, get_or-drop}

module _ {ℓ} {A : Type ℓ} where
  -- `memcpy(dst + off, src, sizeof src)`. What would fall past the end of `dst` is dropped.
  abbrev pub memcpy : List A → ℕ → List A → List A
  memcpy [] off src = []
  memcpy (x ∷ dst) zero [] = x ∷ dst
  memcpy (x ∷ dst) zero (b ∷ src) = b ∷ memcpy dst zero src
  memcpy (x ∷ dst) (suc off) src = x ∷ memcpy dst off src

  -- The `n` elements from index `off` on.
  abbrev pub slice : List A → ℕ → ℕ → List A
  slice xs off n = take n (drop off xs)

module _ {ℓ} {A : Type ℓ} where
  pub length-memcpy :
      (dst : List A) (off : ℕ) (src : List A) → length (memcpy dst off src) ≡ length dst
  length-memcpy [] off src = refl
  length-memcpy (x ∷ dst) zero [] = refl
  length-memcpy (x ∷ dst) zero (b ∷ src) = ap suc (length-memcpy dst zero src)
  length-memcpy (x ∷ dst) (suc off) src = ap suc (length-memcpy dst off src)

  pub get_or-memcpy_inside :
      (dst : List A) (off : ℕ) (src : List A) (j : ℕ) (d : A)
      → off + length src ≤ length dst
      → j < length src
      → get_or (memcpy dst off src) (off + j) d ≡ get_or src j d
  get_or-memcpy_inside [] off src j d fits h = absurd (omega arith)
  get_or-memcpy_inside (x ∷ dst) zero [] j d fits h = absurd (omega arith)
  get_or-memcpy_inside (x ∷ dst) zero (b ∷ src) zero d fits h = refl
  get_or-memcpy_inside (x ∷ dst) zero (b ∷ src) (suc j) d fits h =
      at {x = zero + suc j} {y = suc (zero + j)} (omega arith)
      ∙ get_or-memcpy_inside dst zero src j d (omega arith) (omega arith)
    where
      at :
          {x y : ℕ}
          → x ≡ y
          → get_or (b ∷ memcpy dst zero src) x d ≡ get_or (b ∷ memcpy dst zero src) y d
      at = ap (λ k. get_or (b ∷ memcpy dst zero src) k d)
  get_or-memcpy_inside (x ∷ dst) (suc off) src j d fits h =
      ap (λ k. get_or (x ∷ memcpy dst off src) k d) {x = suc off + j} {y = suc (off + j)}
        (omega arith)
      ∙ get_or-memcpy_inside dst off src j d (omega arith) h

  pub get_or-memcpy_outside :
      (dst : List A) (off : ℕ) (src : List A) (j : ℕ) (d : A)
      → (j < off) ⊎ (off + length src ≤ j)
      → get_or (memcpy dst off src) j d ≡ get_or dst j d
  get_or-memcpy_outside [] off src j d h = refl
  get_or-memcpy_outside (x ∷ dst) zero [] j d h = refl
  get_or-memcpy_outside (x ∷ dst) zero (b ∷ src) zero d h = absurd (omega arith)
  get_or-memcpy_outside (x ∷ dst) zero (b ∷ src) (suc j) d h =
      get_or-memcpy_outside dst zero src j d (omega arith)
  get_or-memcpy_outside (x ∷ dst) (suc off) src zero d h = refl
  get_or-memcpy_outside (x ∷ dst) (suc off) src (suc j) d h =
      get_or-memcpy_outside dst off src j d (omega arith)

  pub length-slice : (xs : List A) (off n : ℕ) → off + n ≤ length xs → length (slice xs off n) ≡ n
  length-slice xs off n h = omega (arith, length-take n (drop off xs), length-drop off xs)

  pub get_or-slice :
      (xs : List A) (off n j : ℕ) (d : A)
      → j < n
      → get_or (slice xs off n) j d ≡ get_or xs (off + j) d
  get_or-slice xs off n j d h = get_or-take n (drop off xs) j d h ∙ get_or-drop off xs j d

  -- What was copied in is read back.
  pub slice-memcpy_self :
      (d : A) (dst : List A) (off : ℕ) (src : List A)
      → off + length src ≤ length dst
      → slice (memcpy dst off src) off (length src) ≡ src
  slice-memcpy_self d dst off src fits =
      let m = memcpy dst off src in
      let len : length (slice m off (length src)) ≡ length src =
        length-slice m off (length src) (omega (arith, length-memcpy dst off src)) in
      get_or_ext d (slice m off (length src)) src len λ i h.
        get_or-slice m off (length src) i d (omega arith)
        ∙ get_or-memcpy_inside dst off src i d fits (omega arith)

  -- A copy elsewhere leaves a slice alone.
  pub slice-memcpy_apart :
      (d : A) (dst : List A) (off : ℕ) (src : List A) (o n : ℕ)
      → o + n ≤ length dst
      → (o + n ≤ off) ⊎ (off + length src ≤ o)
      → slice (memcpy dst off src) o n ≡ slice dst o n
  slice-memcpy_apart d dst off src o n fits apart =
      let m = memcpy dst off src in
      let l : length (slice m o n) ≡ n =
        length-slice m o n (omega (arith, length-memcpy dst off src)) in
      let l' : length (slice dst o n) ≡ n = length-slice dst o n fits in
      get_or_ext d (slice m o n) (slice dst o n) (omega arith) λ i h.
        get_or-slice m o n i d (omega arith)
        ∙ get_or-memcpy_outside dst off src (o + i) d (omega arith)
        ∙ sym (get_or-slice dst o n i d (omega arith))

abbrev pub IsBytes : List ℕ → Type 0
IsBytes = All (λ b. b < 256)

-- The lowest `n` bytes of a number.
abbrev pub le_bytes : ℕ → ℕ → List ℕ
le_bytes zero v = []
le_bytes (suc n) v = v % 256 ∷ le_bytes n (v / 256)

abbrev pub from_le : List ℕ → ℕ
from_le [] = 0
from_le (b ∷ bs) = b + 256 * from_le bs

pub length-le_bytes : (n v : ℕ) → length (le_bytes n v) ≡ n
length-le_bytes zero v = refl
length-le_bytes (suc n) v = ap suc (length-le_bytes n (v / 256))

pub le_bytes-IsBytes : (n v : ℕ) → IsBytes (le_bytes n v)
le_bytes-IsBytes zero v = tt
le_bytes-IsBytes (suc n) v = (omega arith, le_bytes-IsBytes n (v / 256))

-- A number that fits the bytes is read back.
pub from_le-le_bytes : (n v : ℕ) → v < 256 ^ n → from_le (le_bytes n v) ≡ v
from_le-le_bytes zero v h = omega arith
from_le-le_bytes (suc n) v h =
    omega (arith, from_le-le_bytes n (v / 256) (omega (arith, pow-suc 256 n)))

pub get_or-IsBytes : (xs : List ℕ) (i : ℕ) → IsBytes xs → get_or xs i 0 < 256
get_or-IsBytes [] i h = omega arith
get_or-IsBytes (x ∷ xs) zero h = h.0
get_or-IsBytes (x ∷ xs) (suc i) h = get_or-IsBytes xs i h.1

pub memcpy-IsBytes :
    (dst : List ℕ) (off : ℕ) (src : List ℕ)
    → IsBytes dst
    → IsBytes src
    → IsBytes (memcpy dst off src)
memcpy-IsBytes [] off src h k = tt
memcpy-IsBytes (x ∷ dst) zero [] h k = h
memcpy-IsBytes (x ∷ dst) zero (b ∷ src) h k = (k.0, memcpy-IsBytes dst zero src h.1 k.1)
memcpy-IsBytes (x ∷ dst) (suc off) src h k = (h.0, memcpy-IsBytes dst off src h.1 k)

pub slice-IsBytes : (xs : List ℕ) (off n : ℕ) → IsBytes xs → IsBytes (slice xs off n)
slice-IsBytes xs zero zero h = tt
slice-IsBytes [] zero (suc n) h = tt
slice-IsBytes (x ∷ xs) zero (suc n) h = (h.0, slice-IsBytes xs zero n h.1)
slice-IsBytes [] (suc off) zero h = tt
slice-IsBytes [] (suc off) (suc n) h = tt
slice-IsBytes (x ∷ xs) (suc off) n h = slice-IsBytes xs off n h.1
