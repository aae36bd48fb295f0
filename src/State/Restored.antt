-- ===== src/State/Restored.antt =====
-- What unpacking a packed sector map gives, sector by sector.
use mfst.Common.{
  ℕ, zero, suc, ◌+◌, ◌*◌, ◌/◌, ◌%◌, ◌≤◌, ◌<◌, ◌≡◌, ◌≢◌, refl, sym, ap, ap₂, ◌∙◌, ◌⊎◌, inl, arith,
  Bool, true, false, List, [], ◌∷◌, bit_and, bit_or, ltb, length, get_or, set, length-set,
  get_or-set_self, get_or-set_ne, if◌then◌else◌, lt→ltb,
}
use mfst.Common.Bits.{test_bit, test_bit-lt, bit_and_flag}
use mfst.State.Pack.{groups, pack, unpack_two, unpack_byte, unpack_from, unpack}
use mfst.State.Unpacked.{
  length-pack, get_or-pack_from, packed_byte, next, next-lt, two_flags, or_low,
}

module _ (m : List ℕ) (s v : ℕ) where
  length-set_if : (t : Bool) → length (if t then set m s v else m) ≡ length m
  length-set_if true = length-set m s v
  length-set_if false = refl

  get_or-set_if_ne :
      (t : Bool) (j : ℕ) → s ≢ j → get_or (if t then set m s v else m) j 0 ≡ get_or m j 0
  get_or-set_if_ne true j ne = get_or-set_ne m s j v 0 ne
  get_or-set_if_ne false j ne = refl

module _ (entry : ℕ → ℕ → ℕ) (n : ℕ) where
  length-unpack_byte :
      (b s l left : ℕ) (m : List ℕ) → length (unpack_byte entry n b s l left m) ≡ length m
  unfolding unpack_byte
  length-unpack_byte b s l zero m = refl
  length-unpack_byte b s l (suc left) m =
      length-unpack_byte b (s + 1) (l + 1) left (if ltb s n then set m s (entry b l) else m)
      ∙ length-set_if m s (entry b l) (ltb s n)

  get_or-unpack_byte_outside :
      (b s l left : ℕ) (m : List ℕ) (j : ℕ)
      → (j < s) ⊎ (s + left ≤ j)
      → get_or (unpack_byte entry n b s l left m) j 0 ≡ get_or m j 0
  unfolding unpack_byte
  get_or-unpack_byte_outside b s l zero m j h = refl
  get_or-unpack_byte_outside b s l (suc left) m j h =
      get_or-unpack_byte_outside b (s + 1) (l + 1) left (if ltb s n then set m s (entry b l) else m)
        j (omega arith)
      ∙ get_or-set_if_ne m s (entry b l) (ltb s n) j (omega arith)

  get_or-unpack_byte :
      (b s l left : ℕ) (m : List ℕ) (i : ℕ)
      → i < left
      → s + i < n
      → s + i < length m
      → get_or (unpack_byte entry n b s l left m) (s + i) 0 ≡ entry b (l + i)
  unfolding unpack_byte
  get_or-unpack_byte b s l zero m i p q r = absurd (omega arith)
  get_or-unpack_byte b s l (suc left) m zero p q r =
      get_or-unpack_byte_outside b (s + 1) (l + 1) left (if ltb s n then set m s (entry b l) else m)
        (s + 0) (omega arith)
      ∙ ap (λ t. get_or (if t then set m s (entry b l) else m) (s + 0) 0) (lt→ltb s n (omega arith))
      ∙ ap (λ j. get_or (set m s (entry b l)) j 0) (let e : s + 0 ≡ s = omega arith in e)
      ∙ get_or-set_self m s (entry b l) 0 (omega arith)
      ∙ ap (entry b) (let e : l ≡ l + 0 = omega arith in e)
  get_or-unpack_byte b s l (suc left) m (suc i) p q r =
      let m' = if ltb s n then set m s (entry b l) else m in
      let here : s + suc i ≡ s + 1 + i = omega arith in
      let there : l + 1 + i ≡ l + suc i = omega arith in
      ap (λ j. get_or (unpack_byte entry n b (s + 1) (l + 1) left m') j 0) here
      ∙ get_or-unpack_byte b (s + 1) (l + 1) left m' i (omega arith) (omega arith)
          (omega (arith, length-set_if m s (entry b l) (ltb s n)))
      ∙ ap (entry b) there

  module _ (per : ℕ) where
    length-unpack_from :
        (s : ℕ) (bs m : List ℕ) → length (unpack_from entry per n s bs m) ≡ length m
    unfolding unpack_from
    length-unpack_from s [] m = refl
    length-unpack_from s (b ∷ bs) m =
        length-unpack_from (s + per) bs (unpack_byte entry n b s 0 per m)
        ∙ length-unpack_byte b s 0 per m

    get_or-unpack_from_below :
        (s : ℕ) (bs m : List ℕ) (j : ℕ)
        → j < s
        → get_or (unpack_from entry per n s bs m) j 0 ≡ get_or m j 0
    unfolding unpack_from
    get_or-unpack_from_below s [] m j h = refl
    get_or-unpack_from_below s (b ∷ bs) m j h =
        get_or-unpack_from_below (s + per) bs (unpack_byte entry n b s 0 per m) j (omega arith)
        ∙ get_or-unpack_byte_outside b s 0 per m j (inl h)

    -- Sector `i` of byte `k`.
    get_or-unpack_from :
        (s : ℕ) (bs m : List ℕ) (k i : ℕ)
        → k < length bs
        → i < per
        → s + k * per + i < n
        → s + k * per + i < length m
        → get_or (unpack_from entry per n s bs m) (s + k * per + i) 0 ≡ entry (get_or bs k 0) i
    unfolding unpack_from
    get_or-unpack_from s [] m k i p q r t = absurd (omega arith)
    get_or-unpack_from s (b ∷ bs) m zero i p q r t =
        let here : s + zero * per + i ≡ s + i = omega arith in
        ap
          (λ j. get_or (unpack_from entry per n (s + per) bs (unpack_byte entry n b s 0 per m)) j 0)
          here
        ∙ get_or-unpack_from_below (s + per) bs (unpack_byte entry n b s 0 per m) (s + i)
            (omega arith)
        ∙ get_or-unpack_byte b s 0 per m i q (omega (arith, here)) (omega (arith, here))
        ∙ ap (entry b) (let e : 0 + i ≡ i = omega arith in e)
    get_or-unpack_from s (b ∷ bs) m (suc k) i p q r t =
        let here : s + suc k * per + i ≡ s + per + k * per + i = omega arith in
        ap
          (λ j. get_or (unpack_from entry per n (s + per) bs (unpack_byte entry n b s 0 per m)) j 0)
          here
        ∙ get_or-unpack_from (s + per) bs (unpack_byte entry n b s 0 per m) k i (omega arith) q
            (omega (arith, here)) (omega (arith, here, length-unpack_byte b s 0 per m))

-- The flags that a packed entry comes back as
abbrev pub restored_flags : ℕ → ℕ
restored_flags e = test_bit e 4 * 8 + test_bit e 0

-- The flags of one pair of bits
flags_of : ℕ → ℕ
flags_of a = a / 2 % 2 * 8 + a % 2

bits_lem : (x y : ℕ) → bit_or (bit_and x 0x01 * 8) (bit_and y 0x01) ≡ x % 2 * 8 + y % 2
bits_lem x y =
    let hi : bit_and x 0x01 ≡ x % 2 = omega (arith, bit_and_flag 0 x) in
    let lo : bit_and y 0x01 ≡ y % 2 = omega (arith, bit_and_flag 0 y) in
    let eight : x % 2 * 8 ≡ x % 2 * 4 * 2 = omega arith in
    ap₂ (λ u v. bit_or (u * 8) v) hi lo
    ∙ ap (λ u. bit_or u (y % 2)) eight
    ∙ or_low (x % 2 * 4) (y % 2) (omega arith)
    ∙ omega arith

module _ (a b c d : ℕ) (la : a < 4) (lb : b < 4) (lc : c < 4) (ld : d < 4) where
  unpack_two-first : unpack_two (a * 64 + b * 16 + c * 4 + d) 0 ≡ flags_of a
  unfolding flags_of
  unpack_two-first =
      let v = a * 64 + b * 16 + c * 4 + d in let h = bits_lem (v / 128) (v / 64) in h ∙ omega arith

  unpack_two-second : unpack_two (a * 64 + b * 16 + c * 4 + d) 1 ≡ flags_of b
  unfolding flags_of
  unpack_two-second =
      let v = a * 64 + b * 16 + c * 4 + d in let h = bits_lem (v / 32) (v / 16) in h ∙ omega arith

  unpack_two-third : unpack_two (a * 64 + b * 16 + c * 4 + d) 2 ≡ flags_of c
  unfolding flags_of
  unpack_two-third =
      let v = a * 64 + b * 16 + c * 4 + d in let h = bits_lem (v / 8) (v / 4) in h ∙ omega arith

  unpack_two-fourth : unpack_two (a * 64 + b * 16 + c * 4 + d) 3 ≡ flags_of d
  unfolding flags_of
  unpack_two-fourth =
      let v = a * 64 + b * 16 + c * 4 + d in let h = bits_lem (v / 2) (v / 1) in h ∙ omega arith

flags_of-next :
    (m : List ℕ) (n i : ℕ) → i < n → flags_of (next m n i) ≡ restored_flags (get_or m i 0)
unfolding flags_of next
flags_of-next m n i h =
    let e = get_or m i 0 in
    ap (λ t. (if t then two_flags e else 0) / 2 % 2 * 8 + (if t then two_flags e else 0) % 2)
      (lt→ltb i n h)
    ∙ omega (arith, test_bit-lt 4 e, test_bit-lt 0 e)

module _ (m : List ℕ) (n : ℕ) where
  -- Sector `i` of the four of a byte
  unpack_two-byte :
      (s i : ℕ)
      → i < 4
      → s + i < n
      → unpack_two
          (next m n s * 64
            + next m n (s + 1) * 16
            + next m n (s + 1 + 1) * 4
            + next m n (s + 1 + 1 + 1))
          i
        ≡ restored_flags (get_or m (s + i) 0)
  unpack_two-byte s i lt h = pick i lt h
    where
      a : ℕ
      a = next m n s

      b : ℕ
      b = next m n (s + 1)

      c : ℕ
      c = next m n (s + 1 + 1)

      d : ℕ
      d = next m n (s + 1 + 1 + 1)

      la : a < 4
      la = next-lt m n s

      lb : b < 4
      lb = next-lt m n (s + 1)

      lc : c < 4
      lc = next-lt m n (s + 1 + 1)

      ld : d < 4
      ld = next-lt m n (s + 1 + 1 + 1)

      at_index :
          (j i : ℕ)
          → j ≡ s + i
          → s + i < n
          → flags_of (next m n j) ≡ restored_flags (get_or m (s + i) 0)
      at_index j i e h =
          flags_of-next m n j (omega arith) ∙ ap (λ j. restored_flags (get_or m j 0)) e

      pick :
          (i : ℕ)
          → i < 4
          → s + i < n
          → unpack_two (a * 64 + b * 16 + c * 4 + d) i ≡ restored_flags (get_or m (s + i) 0)
      pick zero lt h = unpack_two-first a b c d la lb lc ld ∙ at_index s 0 (omega arith) h
      pick (suc zero) lt h = unpack_two-second a b c d la lb lc ld ∙ at_index (s + 1) 1 refl h
      pick (suc (suc zero)) lt h =
          unpack_two-third a b c d la lb lc ld ∙ at_index (s + 1 + 1) 2 (omega arith) h
      pick (suc (suc (suc zero))) lt h =
          unpack_two-fourth a b c d la lb lc ld ∙ at_index (s + 1 + 1 + 1) 3 (omega arith) h
      pick (suc (suc (suc (suc i)))) lt h = absurd (omega arith)

  pub unpack-pack :
      (base : List ℕ) (j : ℕ)
      → length base ≡ n
      → j < n
      → get_or (unpack true n (pack m n) base) j 0 ≡ restored_flags (get_or m j 0)
  unfolding unpack pack
  unpack-pack base j e lt =
      let k = j / 4 in
      let i = j % 4 in
      let here : j ≡ 0 + k * 4 + i = omega arith in
      let first : 0 + k * 4 ≡ k * 4 = omega arith in
      let reaches : k < groups 4 n = ground arith in
      ap (λ x. get_or (unpack true n (pack m n) base) x 0) here
      ∙ get_or-unpack_from unpack_two n 4 0 (pack m n) base k i
          (omega (arith, reaches, length-pack m n)) (omega arith) (omega arith) (omega arith)
      ∙ ap (λ v. unpack_two v i)
          (get_or-pack_from m n 0 (groups 4 n) k reaches ∙ packed_byte m n (0 + k * 4))
      ∙ unpack_two-byte (0 + k * 4) i (omega arith) (omega arith)
      ∙ ap (λ x. restored_flags (get_or m x 0)) (sym here)

  pub length-unpack-pack : (base : List ℕ) → length (unpack true n (pack m n) base) ≡ length base
  unfolding unpack
  length-unpack-pack base = length-unpack_from unpack_two n 4 0 (pack m n) base
