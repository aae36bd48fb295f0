-- ===== src/Sector/Blocks.antt =====
-- The loop of `prepare_endurance_test_block`, sector by sector.
use native.Mathlib.Decide.{dec_lt}
use native.Mathlib.Nat.{mul-le-mul_right}
use mfst.Common.{
  ℕ, zero, suc, ◌+◌, ◌*◌, ◌^◌, ◌≤◌, ◌<◌, ◌≡◌, ◌⊎◌, refl, sym, ap, subst, ◌∙◌, inl, inr, arith, List,
  length,
}
use mfst.Common.Memory.{
  memcpy, slice, length-memcpy, length-slice, slice-memcpy_self, slice-memcpy_apart, IsBytes,
  slice-IsBytes,
}
use mfst.Context.{Context}
use mfst.Sector.{
  embed_sector_number, embed_round_number, embed_device_uuid, embed_crc32c, prepare_sector,
  prepare_from, prepare_endurance_test_block,
}
use mfst.Sector.Uuid.{length-embed_uuid_from}
use mfst.Sector.Prepare.{Holds, prepare_sector_lem}

before : (size k i : ℕ) → k < i → k * size + size ≤ i * size
before size k i h =
    let m : (k + 1) * size ≤ i * size = mul-le-mul_right size (omega arith) in omega (arith, m)

module _ (crc : ℕ → List ℕ → ℕ) (ctx : Context) (start : ℕ) where
  length-prepare_sector : (n : ℕ) (d : List ℕ) → length (prepare_sector crc ctx n d) ≡ length d
  unfolding prepare_sector embed_sector_number embed_round_number embed_device_uuid embed_crc32c
  length-prepare_sector n d =
      length-memcpy _ _ _
      ∙ length-embed_uuid_from ctx.device_info.device_uuid 16 0 _
      ∙ length-memcpy _ 8 _
      ∙ length-memcpy d 0 _

  abbrev size : ℕ
  size = ctx.device_info.sector_size

  abbrev step : ℕ → List ℕ → List ℕ
  step i b = memcpy b (i * size) (prepare_sector crc ctx (start + i) (slice b (i * size) size))

  module _ (i : ℕ) (b : List ℕ) (fits : i * size + size ≤ length b) where
    length-sector : length (prepare_sector crc ctx (start + i) (slice b (i * size) size)) ≡ size
    length-sector =
        length-prepare_sector (start + i) (slice b (i * size) size)
        ∙ length-slice b (i * size) size fits

    step_self :
        slice (step i b) (i * size) size
        ≡ prepare_sector crc ctx (start + i) (slice b (i * size) size)
    step_self =
        let p = prepare_sector crc ctx (start + i) (slice b (i * size) size) in
        ap (slice (step i b) (i * size)) {x = size} {y = length p} (omega (arith, length-sector))
        ∙ slice-memcpy_self 0 b (i * size) p (omega (arith, length-sector))

    step_other :
        (k : ℕ)
        → k * size + size ≤ length b
        → (k < i) ⊎ (i < k)
        → slice (step i b) (k * size) size ≡ slice b (k * size) size
    step_other k kfits ne = slice-memcpy_apart 0 b (i * size) _ (k * size) size kfits (elim ne [
      | inl lt ↦ inl (before size k i lt)
      | inr gt ↦ inr (omega (arith, before size i k gt, length-sector))
    ])

  prepare_from-done :
      (left i : ℕ) (b : List ℕ) (k : ℕ)
      → (i + left) * size ≤ length b
      → k < i
      → slice (prepare_from crc ctx start left i b) (k * size) size ≡ slice b (k * size) size
  unfolding prepare_from
  prepare_from-done zero i b k fits h = refl
  prepare_from-done (suc left) i b k fits h =
      prepare_from-done left (i + 1) (step i b) k
        (omega (
          arith,
          length-memcpy b (i * size) (prepare_sector crc ctx (start + i) (slice b (i * size) size)),
        ))
        (omega arith)
      ∙ step_other i b (omega (arith, before size i (i + suc left) (omega arith))) k
          (omega (arith, before size k (i + suc left) (omega arith))) (inl h)

  prepare_from-each :
      (left i : ℕ) (b : List ℕ) (k : ℕ)
      → (i + left) * size ≤ length b
      → i ≤ k
      → k < i + left
      → slice (prepare_from crc ctx start left i b) (k * size) size
        ≡ prepare_sector crc ctx (start + k) (slice b (k * size) size)
  unfolding prepare_from
  prepare_from-each zero i b k fits lo hi = absurd (omega arith)
  prepare_from-each (suc left) i b k fits lo hi =
      let len =
        length-memcpy b (i * size) (prepare_sector crc ctx (start + i) (slice b (i * size) size)) in
      let fit = before size i (i + suc left) (omega arith) in
      let kfit = before size k (i + suc left) hi in
      elim (dec_lt i k) [
        | yes lt ↦
            prepare_from-each left (i + 1) (step i b) k (omega (arith, len)) (omega arith)
              (omega arith)
            ∙ ap (prepare_sector crc ctx (start + k))
                (step_other i b (omega (arith, fit)) k (omega (arith, kfit)) (inr lt))
        | no ge ↦
            let e : i ≡ k = omega arith in
            subst
              (λ (t : ℕ).
                slice (prepare_from crc ctx start left (i + 1) (step i b)) (t * size) size
                ≡ prepare_sector crc ctx (start + t) (slice b (t * size) size))
              e
              (prepare_from-done left (i + 1) (step i b) i (omega (arith, len)) (omega arith)
                ∙ step_self i b (omega (arith, fit)))
      ]

-- Every sector of a prepared block gives back its own number, the number of rounds completed, the
-- UUID of the device and, as its embedded CRC-32C, the checksum of all bytes before it; for
-- sectors of at least 279 bytes, a buffer of bytes that holds the block, a UUID of 16 bytes,
-- numbers below 2^64 and a checksum of 32 bits.
pub prepare_endurance_test_block_lem :
    (crc : ℕ → List ℕ → ℕ)
    → ((s : ℕ) (d : List ℕ) → crc s d < 2 ^ 32)
    → (ctx : Context) (buffer : List ℕ) (num_sectors start k : ℕ)
    → num_sectors * ctx.device_info.sector_size ≤ length buffer
    → k < num_sectors
    → 279 ≤ ctx.device_info.sector_size
    → IsBytes buffer
    → start + num_sectors < 2 ^ 64
    → ctx.endurance_test_info.rounds_completed < 2 ^ 64
    → length ctx.device_info.device_uuid ≡ 16
    → Holds crc ctx.device_info.sector_size
        (start + k)
        ctx.endurance_test_info.rounds_completed
        ctx.device_info.device_uuid
        (slice
          (prepare_endurance_test_block crc ctx buffer num_sectors start)
          (k * ctx.device_info.sector_size)
          ctx.device_info.sector_size)
unfolding prepare_endurance_test_block
prepare_endurance_test_block_lem crc crc-lt ctx buffer num_sectors start k fits h large bytes small
      round-lt uuid =
    let size = ctx.device_info.sector_size in
    let fit = before size k num_sectors h in
    subst
      (Holds crc size (start + k) ctx.endurance_test_info.rounds_completed
        ctx.device_info.device_uuid)
      (sym (
        prepare_from-each crc ctx start num_sectors 0 buffer k (omega (arith, fits)) (omega arith)
          (omega arith)))
      (prepare_sector_lem crc crc-lt ctx (start + k) (slice buffer (k * size) size)
        (length-slice buffer (k * size) size (omega (arith, fit))) large
        (slice-IsBytes buffer (k * size) size bytes) (omega arith) round-lt uuid)
