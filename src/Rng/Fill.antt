-- ===== src/Rng/Fill.antt =====
-- Filling buffers: the data does not depend on how it is cut into blocks, which is why the
-- verification pass can regenerate what the write pass wrote.
use mfst.Common.{
  ℕ, zero, suc, ◌+◌, ◌*◌, ◌/◌, ◌≡◌, refl, ap, ◌∙◌, arith, List, [], ◌∷◌, ◌++◌, length,
  length-append,
}
use mfst.Common.Memory.{memcpy, le_bytes}
use mfst.Context.{RngState}
use mfst.Rng.{rng_get_random_number, fill_words, rng_fill_buffer}

memcpy_whole : (dst src : List ℕ) → length dst ≡ length src → memcpy dst 0 src ≡ src
memcpy_whole [] [] e = refl
memcpy_whole [] (b ∷ src) e = absurd (omega arith)
memcpy_whole (x ∷ dst) [] e = absurd (omega arith)
memcpy_whole (x ∷ dst) (b ∷ src) e = ap (◌∷◌ b) (memcpy_whole dst src (omega arith))

module _ (random : ℕ → ℕ → ℕ) where
  length-fill_words : (n : ℕ) (s : RngState) → length (fill_words random n s).0 ≡ 4 * n
  unfolding fill_words
  length-fill_words zero s = omega arith
  length-fill_words (suc n) s =
      let (word, s') = rng_get_random_number random s in
      omega
        (arith, length-append (le_bytes 4 word) (fill_words random n s').0, length-fill_words n s')

  fill_words-add :
      (a b : ℕ) (s : RngState)
      → let (x, s1) = fill_words random a s in
        let (y, s2) = fill_words random b s1 in fill_words random (a + b) s ≡ (x ++ y, s2)
  unfolding fill_words
  fill_words-add zero b s = ap (λ n. fill_words random n s) (omega arith)
  fill_words-add (suc a) b s =
      let (word, s') = rng_get_random_number random s in
      ap (λ n. fill_words random n s) {x = suc a + b} {y = suc (a + b)} (omega arith)
      ∙ ap {B = List ℕ × RngState} (λ p. (le_bytes 4 word ++ p.0, p.1)) (fill_words-add a b s')

  fill_whole :
      (buffer : List ℕ) (n size : ℕ) (s : RngState)
      → length buffer ≡ 4 * n
      → size ≡ 4 * n
      → rng_fill_buffer random buffer size s ≡ fill_words random n s
  unfolding rng_fill_buffer
  fill_whole buffer n size s h e =
      let words : size / 4 ≡ n = omega arith in
      rw words (
        ap {B = List ℕ × RngState} (λ l. (l, (fill_words random n s).1))
          (memcpy_whole buffer (fill_words random n s).0 (omega (arith, length-fill_words n s))))

  -- Filling two buffers one after the other gives the same bytes and the same state as filling one
  -- buffer of both, when their sizes are multiples of four: data written in blocks of one size is
  -- regenerated in blocks of another.
  pub fill_in_blocks :
      (first second : List ℕ) (a b : ℕ) (s : RngState)
      → length first ≡ 4 * a
      → length second ≡ 4 * b
      → let (x, s1) = rng_fill_buffer random first (4 * a) s in
        let (y, s2) = rng_fill_buffer random second (4 * b) s1 in
        rng_fill_buffer random (first ++ second) (4 * a + 4 * b) s ≡ (x ++ y, s2)
  fill_in_blocks first second a b s ha hb =
      let (x, s1) = fill_words random a s in
      let one = fill_whole first a (4 * a) s ha refl in
      let two = fill_whole second b (4 * b) s1 hb refl in
      let both =
        fill_whole (first ++ second) (a + b) (4 * a + 4 * b) s
          (omega (arith, length-append first second)) (omega arith) in
      rw (both, one, two) (fill_words-add a b s)
