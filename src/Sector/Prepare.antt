-- ===== src/Sector/Prepare.antt =====
-- One prepared sector, and what the decoding functions read from it.
use mfst.Common.{
  ℕ, ◌+◌, ◌-◌, ◌*◌, ◌^◌, ◌≤◌, ◌<◌, ◌≡◌, sym, ap, ◌∙◌, ◌⊎◌, inl, inr, arith, List, bit_xor, length,
  get_or, take, get_or_ext,
}
use mfst.Common.Memory.{
  memcpy, slice, le_bytes, from_le, length-memcpy, get_or-memcpy_outside, length-slice,
  get_or-slice, slice-memcpy_self, slice-memcpy_apart, IsBytes, length-le_bytes, le_bytes-IsBytes,
  from_le-le_bytes, memcpy-IsBytes,
}
use mfst.Context.{Context}
use mfst.Sector.Words.{
  decode-embed_sector_number, decode-embed_round_number, decode_embedded_sector_number-eq,
  decode_embedded_round_number-eq,
}
use mfst.Sector.Uuid.{
  HasUuid, length-embed_uuid_from, embed_uuid_from-outside, get_embedded_device_uuid_lem,
  embed_device_uuid-HasUuid,
}
use mfst.Sector.{
  get_round_num_xor_val, embed_sector_number, embed_round_number, embed_device_uuid, embed_crc32c,
  prepare_sector, decode_embedded_sector_number, decode_embedded_round_number,
  get_embedded_device_uuid, get_embedded_crc32c,
}

-- The two lists agree from byte `lo` to byte `hi`, exclusive.
abbrev pub SameBytes : ℕ → ℕ → List ℕ → List ℕ → Type 0
SameBytes lo hi a b = (i : ℕ) → lo ≤ i → i < hi → get_or a i 0 ≡ get_or b i 0

slice-eq :
    (lo hi : ℕ) (a b : List ℕ) (off n : ℕ)
    → SameBytes lo hi a b
    → lo ≤ off
    → off + n ≤ hi
    → hi ≤ length a
    → hi ≤ length b
    → slice a off n ≡ slice b off n
slice-eq lo hi a b off n same l h la lb =
    let ea = length-slice a off n (omega arith) in
    let eb = length-slice b off n (omega arith) in
    get_or_ext 0 (slice a off n) (slice b off n) (omega arith) λ i k.
      get_or-slice a off n i 0 (omega arith)
      ∙ same (off + i) (omega arith) (omega arith)
      ∙ sym (get_or-slice b off n i 0 (omega arith))

-- What a sector must hold for the four values to be read from it.
pub record Holds (crc : ℕ → List ℕ → ℕ) (size number round : ℕ) (uuid d : List ℕ) : Type 0 where
  pub sector_number : decode_embedded_sector_number d ≡ number
  pub round_number : decode_embedded_round_number d ≡ round
  pub device_uuid : get_embedded_device_uuid d ≡ uuid
  pub crc32c : get_embedded_crc32c d size ≡ crc 0 (take (size - 4) d)

embed_sector_number_frame :
    (d : List ℕ) (n : ℕ)
    → IsBytes d
    → (length (embed_sector_number d n) ≡ length d) × IsBytes (embed_sector_number d n)
unfolding embed_sector_number
embed_sector_number_frame d n h =
    (length-memcpy d 0 _, memcpy-IsBytes d 0 _ h (le_bytes-IsBytes 8 _))

embed_round_number_frame :
    (d : List ℕ) (n : ℕ)
    → IsBytes d
    → (length (embed_round_number d n) ≡ length d)
      × IsBytes (embed_round_number d n)
      × ((i : ℕ) → (i < 8) ⊎ (16 ≤ i) → get_or (embed_round_number d n) i 0 ≡ get_or d i 0)
unfolding embed_round_number
embed_round_number_frame d n h = (
  length-memcpy d 8 _,
  memcpy-IsBytes d 8 _ h (le_bytes-IsBytes 8 _),
  λ i k.
      get_or-memcpy_outside d 8 (le_bytes 8 (bit_xor n (get_round_num_xor_val d))) i 0
        (omega (arith, length-le_bytes 8 (bit_xor n (get_round_num_xor_val d)))),
)

embed_device_uuid_frame :
    (u d : List ℕ)
    → (length (embed_device_uuid u d) ≡ length d)
      × ((i : ℕ) → (i < 16) ⊎ (32 ≤ i) → get_or (embed_device_uuid u d) i 0 ≡ get_or d i 0)
unfolding embed_device_uuid
embed_device_uuid_frame u d =
    (length-embed_uuid_from u 16 0 d, λ i k. embed_uuid_from-outside u 16 0 d i (omega arith))

HasUuid-eq : (u a b : List ℕ) → SameBytes 16 275 a b → HasUuid u a → HasUuid u b
HasUuid-eq u a b same h k lt =
    sym (same (k + 16) (omega arith) (omega arith))
    ∙ h k lt
    ∙ ap (bit_xor (get_or u k 0)) (same (k * 16 + 34) (omega arith) (omega arith))

module _ (crc : ℕ → List ℕ → ℕ) (crc-lt : (s : ℕ) (d : List ℕ) → crc s d < 2 ^ 32) where
  embed_crc32c_lem :
      (d : List ℕ) (size : ℕ)
      → length d ≡ size
      → 4 ≤ size
      → get_embedded_crc32c (embed_crc32c crc d size) size
        ≡ crc 0 (take (size - 4) (embed_crc32c crc d size))
  unfolding get_embedded_crc32c embed_crc32c
  embed_crc32c_lem d size len h =
      let c = crc 0 (take (size - 4) d) in
      let w = le_bytes 4 c in
      let lw = length-le_bytes 4 c in
      let e = memcpy d (size - 4) w in
      let body : take (size - 4) e ≡ take (size - 4) d =
        slice-memcpy_apart 0 d (size - 4) w 0 (size - 4) (omega arith) (omega arith) in
      ap (λ n. from_le (slice e (size - 4) n)) (sym lw)
      ∙ ap from_le (slice-memcpy_self 0 d (size - 4) w (omega arith))
      ∙ from_le-le_bytes 4 c (omega (arith, crc-lt 0 (take (size - 4) d)))
      ∙ ap (crc 0) (sym body)

  embed_crc32c-SameBytes :
      (d : List ℕ) (size lo : ℕ) → SameBytes lo (size - 4) (embed_crc32c crc d size) d
  unfolding embed_crc32c
  embed_crc32c-SameBytes d size lo i l h = get_or-memcpy_outside d (size - 4) _ i 0 (inl h)

  length-embed_crc32c : (d : List ℕ) (size : ℕ) → length (embed_crc32c crc d size) ≡ length d
  unfolding embed_crc32c
  length-embed_crc32c d size = length-memcpy d (size - 4) _

  pub prepare_sector_lem :
      (ctx : Context) (number : ℕ) (d : List ℕ)
      → length d ≡ ctx.device_info.sector_size
      → 279 ≤ ctx.device_info.sector_size
      → IsBytes d
      → number < 2 ^ 64
      → ctx.endurance_test_info.rounds_completed < 2 ^ 64
      → length ctx.device_info.device_uuid ≡ 16
      → Holds crc ctx.device_info.sector_size number ctx.endurance_test_info.rounds_completed
          ctx.device_info.device_uuid
          (prepare_sector crc ctx number d)
  unfolding prepare_sector
  prepare_sector_lem ctx number d len large bytes number-lt round-lt uuid-length =
      let size = ctx.device_info.sector_size in
      let round = ctx.endurance_test_info.rounds_completed in
      let uuid = ctx.device_info.device_uuid in
      let d1 = embed_sector_number d number in
      let d2 = embed_round_number d1 round in
      let d3 = embed_device_uuid uuid d2 in
      let d4 = embed_crc32c crc d3 size in
      let f1 = embed_sector_number_frame d number bytes in
      let f2 = embed_round_number_frame d1 round f1.1 in
      let f3 = embed_device_uuid_frame uuid d2 in
      let l4 = length-embed_crc32c d3 size in
      let s4 : SameBytes 0 (size - 4) d4 d3 = embed_crc32c-SameBytes d3 size 0 in
      let to2 : (i : ℕ) → (i < 16) ⊎ (32 ≤ i) → i < 275 → get_or d4 i 0 ≡ get_or d2 i 0 =
        λ i k h. s4 i (omega arith) (omega arith) ∙ f3.1 i k in
      let to1 : (i : ℕ) → (i < 8) ⊎ (32 ≤ i) → i < 275 → get_or d4 i 0 ≡ get_or d1 i 0 =
        λ i k h. to2 i (omega arith) h ∙ f2.2 i (omega arith) in
      record {
        sector_number =
            decode_embedded_sector_number-eq d4 d1
              (slice-eq 0 8 d4 d1 0 8 (λ i l h. to1 i (inl h) (omega arith)) (omega arith)
                (omega arith) (omega (arith, l4, f3.0, f2.0, f1.0)) (omega (arith, f1.0)))
              (λ i l h. to1 i (inr l) h)
            ∙ decode-embed_sector_number d number (omega arith) bytes number-lt;
        round_number =
            decode_embedded_round_number-eq d4 d2
              (slice-eq 8 16 d4 d2 8 8 (λ i l h. to2 i (inl h) (omega arith)) (omega arith)
                (omega arith) (omega (arith, l4, f3.0, f2.0, f1.0)) (omega (arith, f2.0, f1.0)))
              (λ i l h. to2 i (inr l) h)
            ∙ decode-embed_round_number d1 round (omega (arith, f1.0)) f1.1 round-lt;
        device_uuid = get_embedded_device_uuid_lem uuid d4 uuid-length (
            HasUuid-eq uuid d3 d4 (λ i l h. sym (s4 i (omega arith) (omega arith)))
              (embed_device_uuid-HasUuid uuid d2 (omega (arith, f2.0, f1.0))));
        crc32c = embed_crc32c_lem d3 size (omega (arith, f3.0, f2.0, f1.0)) (omega arith);
      }
