-- ===== src/State/Unpacked.antt =====
-- The packed sector map: its length, and what unpacking gives back.
use mfst.Common.{
  ℕ, zero, suc, ◌+◌, ◌*◌, ◌/◌, ◌%◌, ◌≤◌, ◌<◌, ◌≡◌, refl, ap, ap₂, ◌∙◌, arith, Bool, true, false,
  List, bit_and, bit_or, ltb, length, get_or, if◌then◌else◌,
}
use mfst.Common.Bits.{test_bit, test_bit-lt, bit_and_flag, bit_or_step}
use mfst.State.Pack.{groups, pack_byte, pack_from, pack}

length-pack_from : (m : List ℕ) (n i left : ℕ) → length (pack_from m n i left) ≡ left
unfolding pack_from
length-pack_from m n i zero = refl
length-pack_from m n i (suc left) = ap suc (length-pack_from m n (i + 4) left)

-- The packed map has the length that load_state expects of it.
pub length-pack : (m : List ℕ) (n : ℕ) → length (pack m n) ≡ groups 4 n
unfolding pack
length-pack m n = length-pack_from m n 0 (groups 4 n)

pub get_or-pack_from :
    (m : List ℕ) (n i left k : ℕ)
    → k < left
    → get_or (pack_from m n i left) k 0 ≡ pack_byte m n (i + k * 4) 4 0
unfolding pack_from
get_or-pack_from m n i zero k h = absurd (omega arith)
get_or-pack_from m n i (suc left) zero h = ap (λ j. pack_byte m n j 4 0) (omega arith)
get_or-pack_from m n i (suc left) (suc k) h =
    get_or-pack_from m n (i + 4) left k (omega arith)
    ∙ ap (λ j. pack_byte m n j 4 0) (let e : i + 4 + k * 4 ≡ i + suc k * 4 = omega arith in e)

-- The two bits that are kept of an entry
abbrev pub two_flags : ℕ → ℕ
two_flags e = test_bit e 4 * 2 + test_bit e 0

-- What one round of the loop over `j` gives.
unfoldable pub next : List ℕ → ℕ → ℕ → ℕ
next m n i = if ltb i n then two_flags (get_or m i 0) else 0

pub next-lt : (m : List ℕ) (n i : ℕ) → next m n i < 4
unfolding next
next-lt m n i = ground (arith, test_bit-lt 4 (get_or m i 0), test_bit-lt 0 (get_or m i 0))

bit_or-zero_bound : (n a : ℕ) → a ≤ n → bit_or a 0 ≡ a
bit_or-zero_bound zero zero h = refl
bit_or-zero_bound zero (suc a) h = absurd (omega arith)
bit_or-zero_bound (suc n) zero h = refl
bit_or-zero_bound (suc n) (suc a) h =
    omega (arith, bit_or_step (suc a) 0, bit_or-zero_bound n (suc a / 2) (omega arith))

pub or_low : (a t : ℕ) → t < 2 → bit_or (a * 2) t ≡ a * 2 + t
or_low a t lt =
    let half : a * 2 / 2 ≡ a = omega arith in
    let none_left : t / 2 ≡ 0 = omega arith in
    let s = bit_or_step (a * 2) t in
    let s' = rw (half, none_left) at s in omega (arith, s', bit_or-zero_bound a a (omega arith))

or_high : (a t : ℕ) → t < 2 → bit_or (a * 4) (t * 2) ≡ a * 4 + t * 2
or_high a t lt =
    let half : a * 4 / 2 ≡ a * 2 = omega arith in
    let low : t * 2 / 2 ≡ t = omega arith in
    let s = bit_or_step (a * 4) (t * 2) in
    let s' = rw (half, low) at s in omega (arith, s', or_low a t lt)

or_flags :
    (a e : ℕ) → bit_or (bit_or (a * 4) (bit_and e 0x10 / 8)) (bit_and e 0x01) ≡ a * 4 + two_flags e
or_flags a e =
    let t = test_bit e 4 in
    let u = test_bit e 0 in
    let high : bit_and e 0x10 / 8 ≡ t * 2 = omega (arith, bit_and_flag 4 e) in
    let low : bit_and e 0x01 ≡ u = omega (arith, bit_and_flag 0 e) in
    let even : a * 4 + t * 2 ≡ (a * 2 + t) * 2 = omega arith in
    ap₂ (λ x y. bit_or (bit_or (a * 4) x) y) high low
    ∙ ap (λ x. bit_or x u) (or_high a t (test_bit-lt 4 e) ∙ even)
    ∙ or_low (a * 2 + t) u (test_bit-lt 0 e)
    ∙ omega (arith, even)

pack_byte_step :
    (m : List ℕ) (n i left acc : ℕ)
    → acc < 64
    → pack_byte m n i (suc left) acc ≡ pack_byte m n (i + 1) left (acc * 4 + next m n i)
unfolding pack_byte next
pack_byte_step m n i left acc lt = ap (pack_byte m n (i + 1) left) (go (ltb i n))
  where
    small : acc * 4 % 256 ≡ acc * 4
    small = omega arith

    go :
        (b : Bool)
        → (if b
            then bit_or
                (bit_or (acc * 4 % 256) (bit_and (get_or m i 0) 0x10 / 8))
                (bit_and (get_or m i 0) 0x01)
            else acc * 4 % 256)
          ≡ acc * 4 + (if b then two_flags (get_or m i 0) else 0)
    go true = rw small (or_flags acc (get_or m i 0))
    go false = omega arith

-- A byte holds four pairs of bits, the first sector in the highest.
pub packed_byte :
    (m : List ℕ) (n i : ℕ)
    → pack_byte m n i 4 0
      ≡ next m n i * 64
        + next m n (i + 1) * 16
        + next m n (i + 1 + 1) * 4
        + next m n (i + 1 + 1 + 1)
unfolding pack_byte
packed_byte m n i =
    let a = next m n i in
    let b = next m n (i + 1) in
    let c = next m n (i + 1 + 1) in
    let d = next m n (i + 1 + 1 + 1) in
    let la = next-lt m n i in
    let lb = next-lt m n (i + 1) in
    let lc = next-lt m n (i + 1 + 1) in
    pack_byte_step m n i 3 0 (omega arith)
    ∙ pack_byte_step m n (i + 1) 2 (0 * 4 + a) (omega arith)
    ∙ pack_byte_step m n (i + 1 + 1) 1 ((0 * 4 + a) * 4 + b) (omega arith)
    ∙ pack_byte_step m n (i + 1 + 1 + 1) 0 (((0 * 4 + a) * 4 + b) * 4 + c) (omega arith)
    ∙ omega arith
