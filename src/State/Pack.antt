-- ===== src/State/Pack.antt =====
-- The packed sector map of state.c: `save_state` keeps two bits for each sector, four sectors in a
-- byte; `load_state` unpacks these, and the one bit for each sector of version 1.
use mfst.Common.{ℕ, zero, suc, ◌+◌, ◌-◌, ◌*◌, ◌/◌, ◌%◌, ◌^◌, bit_and, bit_or, Bool}
use mfst.Common.{List, [], ◌∷◌, get_or, set, if◌then◌else◌, ◌==◌, ltb}

-- `n / per + ((n % per) ? 1 : 0)`
abbrev pub groups : ℕ → ℕ → ℕ
groups per n = n / per + (if n % per == 0 then 0 else 1)

-- The loop over `j` with its rounds left: `sector_map[i / 4]` at its end.
unfoldable pub pack_byte : List ℕ → ℕ → ℕ → ℕ → ℕ → ℕ
pack_byte m n i zero acc = acc
pack_byte m n i (suc left) acc =
    let e = get_or m i 0 in
    pack_byte m n (i + 1) left (
      if ltb i n
      then bit_or (bit_or (acc * 4 % 256) (bit_and e 0x10 / 8)) (bit_and e 0x01)
      else acc * 4 % 256)

-- The loop over `i` with its rounds left.
unfoldable pub pack_from : List ℕ → ℕ → ℕ → ℕ → List ℕ
pack_from m n i zero = []
pack_from m n i (suc left) = pack_byte m n i 4 0 ∷ pack_from m n (i + 4) left

unfoldable pub pack : List ℕ → ℕ → List ℕ
pack m n = pack_from m n 0 (groups 4 n)

-- The two bits of sector `l` of the byte `b`, as flags of the sector map.
abbrev pub unpack_two : ℕ → ℕ → ℕ
unpack_two b l =
    bit_or (bit_and (b / 2 ^ ((3 - l) * 2 + 1)) 0x01 * 8) (bit_and (b / 2 ^ ((3 - l) * 2)) 0x01)

abbrev pub unpack_one : ℕ → ℕ → ℕ
unpack_one b l = bit_and (b / 2 ^ (7 - l)) 0x01

-- The loop over `l` with its rounds left; `s` is the number of its sector.
unfoldable pub unpack_byte : (ℕ → ℕ → ℕ) → ℕ → ℕ → ℕ → ℕ → ℕ → List ℕ → List ℕ
unpack_byte entry n b s l zero m = m
unpack_byte entry n b s l (suc left) m =
    unpack_byte entry n b (s + 1) (l + 1) left (if ltb s n then set m s (entry b l) else m)

-- The loop over `k`, for the bytes left.
unfoldable pub unpack_from : (ℕ → ℕ → ℕ) → ℕ → ℕ → ℕ → List ℕ → List ℕ → List ℕ
unpack_from entry per n s [] m = m
unpack_from entry per n s (b ∷ bs) m =
    unpack_from entry per n (s + per) bs (unpack_byte entry n b s 0 per m)

unfoldable pub unpack : Bool → ℕ → List ℕ → List ℕ → List ℕ
unpack two_bits n bytes m =
    if two_bits then unpack_from unpack_two 4 n 0 bytes m else unpack_from unpack_one 8 n 0 bytes m
