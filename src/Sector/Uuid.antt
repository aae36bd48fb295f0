-- ===== src/Sector/Uuid.antt =====
-- The UUID in a sector: embedding and decoding, byte by byte.
use native.Mathlib.Decide.{dec_lt}
use mfst.Common.{
  ℕ, zero, suc, ◌+◌, ◌*◌, ◌≤◌, ◌<◌, ◌≡◌, refl, sym, ap, ◌∙◌, ◌⊎◌, arith, List, bit_xor, length,
  get_or, set, length-set, get_or-set_self, get_or-set_ne, get_or_ext,
}
use mfst.Common.Bits.{xor_xor}
use mfst.Sector.{embed_uuid_from, embed_device_uuid, embedded_uuid_from, get_embedded_device_uuid}

-- The byte that stands for byte `k` of the UUID.
abbrev masked : List ℕ → List ℕ → ℕ → ℕ
masked u d k = bit_xor (get_or u k 0) (get_or d (k * 16 + 34) 0)

abbrev at : List ℕ → ℕ → ℕ
at e n = bit_xor (get_or e (n + 16) 0) (get_or e (n * 16 + 34) 0)

pub length-embed_uuid_from :
    (u : List ℕ) (left i : ℕ) (d : List ℕ) → length (embed_uuid_from u left i d) ≡ length d
unfolding embed_uuid_from
length-embed_uuid_from u zero i d = refl
length-embed_uuid_from u (suc left) i d =
    length-embed_uuid_from u left (i + 1) (set d (i + 16) (masked u d i)) ∙ length-set d (i + 16) _

pub embed_uuid_from-outside :
    (u : List ℕ) (left i : ℕ) (d : List ℕ) (j : ℕ)
    → (j < i + 16) ⊎ (i + left + 16 ≤ j)
    → get_or (embed_uuid_from u left i d) j 0 ≡ get_or d j 0
unfolding embed_uuid_from
embed_uuid_from-outside u zero i d j h = refl
embed_uuid_from-outside u (suc left) i d j h =
    embed_uuid_from-outside u left (i + 1) (set d (i + 16) (masked u d i)) j (omega arith)
    ∙ get_or-set_ne d (i + 16) j (masked u d i) 0 (omega arith)

embed_uuid_from-inside :
    (u : List ℕ) (left i : ℕ) (d : List ℕ) (k : ℕ)
    → i + left ≤ 16
    → i ≤ k
    → k < i + left
    → 32 ≤ length d
    → get_or (embed_uuid_from u left i d) (k + 16) 0 ≡ masked u d k
unfolding embed_uuid_from
embed_uuid_from-inside u zero i d k few lo hi len = absurd (omega arith)
embed_uuid_from-inside u (suc left) i d k few lo hi len =
    let v = masked u d i in
    let d' = set d (i + 16) v in
    elim (dec_lt i k) [
      | yes lt ↦
          embed_uuid_from-inside u left (i + 1) d' k (omega arith) (omega arith) (omega arith)
            (omega (arith, length-set d (i + 16) v))
          ∙ ap (bit_xor (get_or u k 0)) (get_or-set_ne d (i + 16) (k * 16 + 34) v 0 (omega arith))
      | no ge ↦
          embed_uuid_from-outside u left (i + 1) d' (k + 16) (omega arith)
          ∙ ap (λ n. get_or d' (n + 16) 0) {x = k} {y = i} (omega arith)
          ∙ get_or-set_self d (i + 16) v 0 (omega arith)
          ∙ ap (masked u d) {x = i} {y = k} (omega arith)
    ]

length-embedded_uuid_from : (left i : ℕ) (e : List ℕ) → length (embedded_uuid_from left i e) ≡ left
unfolding embedded_uuid_from
length-embedded_uuid_from zero i e = refl
length-embedded_uuid_from (suc left) i e = ap suc (length-embedded_uuid_from left (i + 1) e)

get_or-embedded_uuid_from :
    (left i : ℕ) (e : List ℕ) (j : ℕ)
    → j < left
    → get_or (embedded_uuid_from left i e) j 0
      ≡ bit_xor (get_or e (i + j + 16) 0) (get_or e ((i + j) * 16 + 34) 0)
unfolding embedded_uuid_from
get_or-embedded_uuid_from zero i e j h = absurd (omega arith)
get_or-embedded_uuid_from (suc left) i e zero h = ap (at e) {x = i} {y = i + 0} (omega arith)
get_or-embedded_uuid_from (suc left) i e (suc j) h =
    get_or-embedded_uuid_from left (i + 1) e j (omega arith)
    ∙ ap (at e) {x = i + 1 + j} {y = i + suc j} (omega arith)

-- What the bytes of a sector must be for the UUID `u` to be read from it.
abbrev pub HasUuid : List ℕ → List ℕ → Type 0
HasUuid u e = (k : ℕ) → k < 16 → get_or e (k + 16) 0 ≡ masked u e k

pub get_embedded_device_uuid_lem :
    (u e : List ℕ) → length u ≡ 16 → HasUuid u e → get_embedded_device_uuid e ≡ u
unfolding get_embedded_device_uuid
get_embedded_device_uuid_lem u e len has =
    let n = length-embedded_uuid_from 16 0 e in
    get_or_ext 0 (embedded_uuid_from 16 0 e) u (omega arith) λ k h.
      get_or-embedded_uuid_from 16 0 e k (omega arith)
      ∙ ap (at e) {x = 0 + k} {y = k} (omega arith)
      ∙ ap (λ b. bit_xor b (get_or e (k * 16 + 34) 0)) (has k (omega arith))
      ∙ xor_xor (get_or u k 0) (get_or e (k * 16 + 34) 0)

pub embed_device_uuid-HasUuid : (u d : List ℕ) → 32 ≤ length d → HasUuid u (embed_device_uuid u d)
unfolding embed_device_uuid
embed_device_uuid-HasUuid u d len k h =
    embed_uuid_from-inside u 16 0 d k (omega arith) (omega arith) (omega arith) len
    ∙ ap (bit_xor (get_or u k 0))
        (sym (embed_uuid_from-outside u 16 0 d (k * 16 + 34) (omega arith)))
