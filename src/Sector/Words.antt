-- ===== src/Sector/Words.antt =====
-- The sector and round numbers: embedding and decoding.
use mfst.Common.{
  ℕ, ◌+◌, ◌^◌, ◌≤◌, ◌<◌, ◌≡◌, sym, ap, ap₂, ◌∙◌, inr, arith, List, bit_xor, length, get_or,
}
use mfst.Common.Bits.{bit_or-lt, bit_xor-lt, xor_xor}
use mfst.Common.Memory.{
  memcpy, slice, le_bytes, from_le, IsBytes, length-le_bytes, from_le-le_bytes, get_or-IsBytes,
  get_or-memcpy_outside, slice-memcpy_self,
}
use mfst.Sector.{
  xor_val_from, get_sector_number_xor_val, get_round_num_xor_val, embed_sector_number,
  embed_round_number, decode_embedded_sector_number, decode_embedded_round_number,
}

-- The random data from byte 32 on is the same, as far as the embedding looks at it.
abbrev pub SameMask : List ℕ → List ℕ → Type 0
SameMask a b = (i : ℕ) → 32 ≤ i → i < 275 → get_or a i 0 ≡ get_or b i 0

xor_val_from-lt : (first : ℕ) (d : List ℕ) → IsBytes d → xor_val_from first d < 2 ^ 64
xor_val_from-lt first d h =
    let byte = λ (n : ℕ). get_or-IsBytes d (first + n) h in
    let or = bit_or-lt 64 in
    or _ _
      (or _ _
        (or _ _
          (or _ _
            (or _ _
              (or _ _ (or _ _ (omega (arith, byte 0)) (omega (arith, byte 16)))
                (omega (arith, byte 32)))
              (omega (arith, byte 48)))
            (omega (arith, byte 64)))
          (omega (arith, byte 80)))
        (omega (arith, byte 96)))
      (omega (arith, byte 112))

xor_val_from-eq :
    (first : ℕ) (a b : List ℕ)
    → 32 ≤ first
    → first < 34
    → SameMask a b
    → xor_val_from first a ≡ xor_val_from first b
xor_val_from-eq first a b lo hi same = rw (
  same (first + 0) (omega arith) (omega arith),
  same (first + 16) (omega arith) (omega arith),
  same (first + 32) (omega arith) (omega arith),
  same (first + 48) (omega arith) (omega arith),
  same (first + 64) (omega arith) (omega arith),
  same (first + 80) (omega arith) (omega arith),
  same (first + 96) (omega arith) (omega arith),
  same (first + 112) (omega arith) (omega arith),
)

-- An embedded word lies below the mask.
word_keeps_mask : (d : List ℕ) (off v : ℕ) → off ≤ 8 → SameMask (memcpy d off (le_bytes 8 v)) d
word_keeps_mask d off v h i lo hi =
    get_or-memcpy_outside d off (le_bytes 8 v) i 0 (inr (omega (arith, length-le_bytes 8 v)))

slice_word :
    (d : List ℕ) (off v : ℕ)
    → off + 8 ≤ length d
    → v < 2 ^ 64
    → from_le (slice (memcpy d off (le_bytes 8 v)) off 8) ≡ v
slice_word d off v fits h =
    ap (λ n. from_le (slice (memcpy d off (le_bytes 8 v)) off n)) (sym (length-le_bytes 8 v))
    ∙ ap from_le (slice-memcpy_self 0 d off (le_bytes 8 v) (omega (arith, length-le_bytes 8 v)))
    ∙ from_le-le_bytes 8 v (omega arith)

pub decode-embed_sector_number :
    (d : List ℕ) (n : ℕ)
    → 8 ≤ length d
    → IsBytes d
    → n < 2 ^ 64
    → decode_embedded_sector_number (embed_sector_number d n) ≡ n
unfolding decode_embedded_sector_number embed_sector_number get_sector_number_xor_val
decode-embed_sector_number d n len bytes h =
    let mask = xor_val_from 32 d in
    let w = bit_xor n mask in
    ap₂ bit_xor
      (slice_word d 0 w (omega arith) (bit_xor-lt 64 n mask h (xor_val_from-lt 32 d bytes)))
      (xor_val_from-eq 32 (memcpy d 0 (le_bytes 8 w)) d (omega arith) (omega arith)
        (word_keeps_mask d 0 w (omega arith)))
    ∙ xor_xor n mask

pub decode-embed_round_number :
    (d : List ℕ) (n : ℕ)
    → 16 ≤ length d
    → IsBytes d
    → n < 2 ^ 64
    → decode_embedded_round_number (embed_round_number d n) ≡ n
unfolding decode_embedded_round_number embed_round_number get_round_num_xor_val
decode-embed_round_number d n len bytes h =
    let mask = xor_val_from 33 d in
    let w = bit_xor n mask in
    ap₂ bit_xor
      (slice_word d 8 w (omega arith) (bit_xor-lt 64 n mask h (xor_val_from-lt 33 d bytes)))
      (xor_val_from-eq 33 (memcpy d 8 (le_bytes 8 w)) d (omega arith) (omega arith)
        (word_keeps_mask d 8 w (omega arith)))
    ∙ xor_xor n mask

-- Decoding looks at the first eight bytes (the next eight) and at the mask only.
pub decode_embedded_sector_number-eq :
    (a b : List ℕ)
    → slice a 0 8 ≡ slice b 0 8
    → SameMask a b
    → decode_embedded_sector_number a ≡ decode_embedded_sector_number b
unfolding decode_embedded_sector_number get_sector_number_xor_val
decode_embedded_sector_number-eq a b same mask =
    ap₂ (λ s m. bit_xor (from_le s) m) same
      (xor_val_from-eq 32 a b (omega arith) (omega arith) mask)

pub decode_embedded_round_number-eq :
    (a b : List ℕ)
    → slice a 8 8 ≡ slice b 8 8
    → SameMask a b
    → decode_embedded_round_number a ≡ decode_embedded_round_number b
unfolding decode_embedded_round_number get_round_num_xor_val
decode_embedded_round_number-eq a b same mask =
    ap₂ (λ s m. bit_xor (from_le s) m) same
      (xor_val_from-eq 33 a b (omega arith) (omega arith) mask)
