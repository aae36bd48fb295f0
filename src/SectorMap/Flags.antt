-- ===== src/SectorMap/Flags.antt =====
-- What the flag masks of the sector map do to single flags, and `|=` and `&=` over a range of
-- entries, index by index.
use mfst.Common.{
  ℕ, zero, suc, ◌+◌, ◌^◌, ◌≤◌, ◌<◌, ◌≡◌, refl, sym, ap, ap₂, subst, ◌∙◌, ◌⊎◌, inl, arith, ◌&&◌,
  ◌||◌, List, bit_and, bit_or, ◌==◌, length, get_or, set, length-set, get_or-set_self,
  get_or-set_ne,
}
use mfst.Common.Bits.{test_bit, test_bit-lt, test_bit-bit_or, test_bit-bit_and, bit_and_flag}
use mfst.SectorMap.{has_flag, or_range, and_range}
use native.Mathlib.Nat.{one-le-pow}
use native.Mathlib.Decide.{dec_lt}

-- A flag is a binary digit.
pub has_flag_digit : (k e : ℕ) → has_flag (2 ^ k) e ≡ (test_bit e k == 1)
has_flag_digit k e = split (test_bit e k) refl (test_bit-lt k e)
  where
    split : (t : ℕ) → test_bit e k ≡ t → t < 2 → has_flag (2 ^ k) e ≡ (test_bit e k == 1)
    split zero h lt = ground (arith, bit_and_flag k e)
    split (suc zero) h lt = ground (arith, bit_and_flag k e, one-le-pow k 2)
    split (suc (suc t)) h lt = absurd (omega arith)

pub has_flag-bit_or :
    (k a b : ℕ) → has_flag (2 ^ k) (bit_or a b) ≡ (has_flag (2 ^ k) a || has_flag (2 ^ k) b)
has_flag-bit_or k a b =
    has_flag_digit k (bit_or a b)
    ∙ digits
    ∙ sym (ap₂ ◌||◌ (has_flag_digit k a) (has_flag_digit k b))
  where
    digits : (test_bit (bit_or a b) k == 1) ≡ ((test_bit a k == 1) || (test_bit b k == 1))
    digits = ground (arith, test_bit-bit_or k a b, test_bit-lt k a, test_bit-lt k b)

pub has_flag-bit_and :
    (k a b : ℕ) → has_flag (2 ^ k) (bit_and a b) ≡ (has_flag (2 ^ k) a && has_flag (2 ^ k) b)
has_flag-bit_and k a b =
    has_flag_digit k (bit_and a b)
    ∙ digits
    ∙ sym (ap₂ ◌&&◌ (has_flag_digit k a) (has_flag_digit k b))
  where
    digits : (test_bit (bit_and a b) k == 1) ≡ ((test_bit a k == 1) && (test_bit b k == 1))
    digits = ground (arith, test_bit-bit_and k a b, test_bit-lt k a, test_bit-lt k b)

pub length-or_range : (flags left i : ℕ) (m : List ℕ) → length (or_range flags left i m) ≡ length m
unfolding or_range
length-or_range flags zero i m = refl
length-or_range flags (suc left) i m =
    length-or_range flags left (i + 1) (set m i (bit_or (get_or m i 0) flags))
    ∙ length-set m i (bit_or (get_or m i 0) flags)

pub length-and_range :
    (flags left j : ℕ) (m : List ℕ) → length (and_range flags left j m) ≡ length m
unfolding and_range
length-and_range flags zero i m = refl
length-and_range flags (suc left) i m =
    length-and_range flags left (i + 1) (set m i (bit_and (get_or m i 0) flags))
    ∙ length-set m i (bit_and (get_or m i 0) flags)

pub get_or-or_range_outside :
    (flags left i : ℕ) (m : List ℕ) (j : ℕ)
    → (j < i) ⊎ (i + left ≤ j)
    → get_or (or_range flags left i m) j 0 ≡ get_or m j 0
unfolding or_range
get_or-or_range_outside flags zero i m j h = refl
get_or-or_range_outside flags (suc left) i m j h =
    get_or-or_range_outside flags left (i + 1) (set m i (bit_or (get_or m i 0) flags)) j
      (omega arith)
    ∙ get_or-set_ne m i j (bit_or (get_or m i 0) flags) 0 (omega arith)

pub get_or-or_range_inside :
    (flags left i : ℕ) (m : List ℕ) (j : ℕ)
    → i ≤ j
    → j < i + left
    → j < length m
    → get_or (or_range flags left i m) j 0 ≡ bit_or (get_or m j 0) flags
unfolding or_range
get_or-or_range_inside flags zero i m j p q r = absurd (omega arith)
get_or-or_range_inside flags (suc left) i m j p q r =
    let e = bit_or (get_or m i 0) flags in
    let m' = set m i e in
    elim (dec_lt i j) [
      | yes lt ↦
          get_or-or_range_inside flags left (i + 1) m' j (omega arith) (omega arith)
            (omega (arith, length-set m i e))
          ∙ ap (λ t. bit_or t flags) (get_or-set_ne m i j e 0 (omega arith))
      | no ge ↦
          let same : i ≡ j = omega arith in
          get_or-or_range_outside flags left (i + 1) m' j (inl (omega arith))
          ∙ subst (λ t. get_or m' t 0 ≡ bit_or (get_or m t 0) flags) same
              (get_or-set_self m i e 0 (omega arith))
    ]

pub get_or-and_range_outside :
    (flags left i : ℕ) (m : List ℕ) (j : ℕ)
    → (j < i) ⊎ (i + left ≤ j)
    → get_or (and_range flags left i m) j 0 ≡ get_or m j 0
unfolding and_range
get_or-and_range_outside flags zero i m j h = refl
get_or-and_range_outside flags (suc left) i m j h =
    get_or-and_range_outside flags left (i + 1) (set m i (bit_and (get_or m i 0) flags)) j
      (omega arith)
    ∙ get_or-set_ne m i j (bit_and (get_or m i 0) flags) 0 (omega arith)

pub get_or-and_range_inside :
    (flags left i : ℕ) (m : List ℕ) (j : ℕ)
    → i ≤ j
    → j < i + left
    → j < length m
    → get_or (and_range flags left i m) j 0 ≡ bit_and (get_or m j 0) flags
unfolding and_range
get_or-and_range_inside flags zero i m j p q r = absurd (omega arith)
get_or-and_range_inside flags (suc left) i m j p q r =
    let e = bit_and (get_or m i 0) flags in
    let m' = set m i e in
    elim (dec_lt i j) [
      | yes lt ↦
          get_or-and_range_inside flags left (i + 1) m' j (omega arith) (omega arith)
            (omega (arith, length-set m i e))
          ∙ ap (λ t. bit_and t flags) (get_or-set_ne m i j e 0 (omega arith))
      | no ge ↦
          let same : i ≡ j = omega arith in
          get_or-and_range_outside flags left (i + 1) m' j (inl (omega arith))
          ∙ subst (λ t. get_or m' t 0 ≡ bit_and (get_or m t 0) flags) same
              (get_or-set_self m i e 0 (omega arith))
    ]
