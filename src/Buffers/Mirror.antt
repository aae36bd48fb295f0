-- ===== src/Buffers/Mirror.antt =====
-- The copies and the device: what a write does to both.
use mfst.Common.{
  ℕ, ◌+◌, ◌-◌, ◌^◌, ◌%◌, ◌≤◌, ◌<◌, ◌≡◌, refl, sym, ap, ◌∙◌, ◌⊎◌, inl, inr, arith, Bool, Bool-cases,
  true, false, ◌&&◌, ◌||◌, List, if◌then◌else◌, ltb, ltb→lt, leb, take, drop, length, length-take,
  length-drop, get_or, get_or-take, get_or-drop,
}
use native.Mathlib.Decide.{dec_lt}
use mfst.Common.Memory.{memcpy, length-memcpy, get_or-memcpy_inside, get_or-memcpy_outside}
use mfst.Context.{Context, DeviceInfo, device_info_delete_state_file_name}
use mfst.Buffers.{
  was_bod_area_affected, was_mod_area_affected, after_save, update_bod_buffer, copy_to_mod,
  update_mod_buffer,
}

-- The contents of a device: the byte at each position. What a write leaves there.
abbrev pub written : (ℕ → ℕ) → ℕ → List ℕ → ℕ → ℕ
written device start buffer i =
    if leb start i && ltb i (start + length buffer) then get_or buffer (i - start) 0 else device i

-- The copy holds the bytes of the device from `start` on.
abbrev pub Mirrors : (ℕ → ℕ) → ℕ → ℕ → List ℕ → Type 0
Mirrors device start size copy =
    (length copy ≡ size) × ((i : ℕ) → i < size → get_or copy i 0 ≡ device (start + i))

written_inside :
    (device : ℕ → ℕ) (start : ℕ) (buffer : List ℕ) (i : ℕ)
    → start ≤ i
    → i < start + length buffer
    → written device start buffer i ≡ get_or buffer (i - start) 0
written_inside device start buffer i lo hi =
    let a : leb start i ≡ true = ground arith in
    let b : ltb i (start + length buffer) ≡ true = ground arith in rw (a, b) refl

written_outside :
    (device : ℕ → ℕ) (start : ℕ) (buffer : List ℕ) (i : ℕ)
    → (i < start) ⊎ (start + length buffer ≤ i)
    → written device start buffer i ≡ device i
written_outside device start buffer i h =
    let e : (leb start i && ltb i (start + length buffer)) ≡ false = ground arith in rw e refl

-- A copy that starts at `start` of the device, and the part of the write, from byte `from` of the
-- buffer on, that goes to byte `to` of the copy.
copied :
    (device : ℕ → ℕ) (start size : ℕ) (copy : List ℕ) (at : ℕ) (buffer : List ℕ) (to from n : ℕ)
    → Mirrors device start size copy
    → start + to ≡ at + from
    → from + n ≤ length buffer
    → to + n ≤ size
    → ((to ≡ 0) ⊎ (from ≡ 0))
    → ((to + n ≡ size) ⊎ (from + n ≡ length buffer))
    → Mirrors (written device at buffer) start size (memcpy copy to (take n (drop from buffer)))
copied device start size copy at buffer to from n m same inside fits first last =
    let src = take n (drop from buffer) in
    let len : length src ≡ n =
      omega (arith, length-take n (drop from buffer), length-drop from buffer) in
    (
      length-memcpy copy to src ∙ m.0,
      λ i h. elim (dec_lt i to) [
        | yes before ↦
            get_or-memcpy_outside copy to src i 0 (inl before)
            ∙ m.1 i h
            ∙ sym (written_outside device at buffer (start + i) (omega arith))
        | no ge ↦ elim (dec_lt i (to + n)) [
          | no after ↦
              get_or-memcpy_outside copy to src i 0 (inr (omega arith))
              ∙ m.1 i h
              ∙ sym (written_outside device at buffer (start + i) (omega arith))
          | yes lt ↦
              ap (λ k. get_or (memcpy copy to src) k 0) {x = i} {y = to + (i - to)} (omega arith)
              ∙ get_or-memcpy_inside copy to src (i - to) 0 (omega (arith, m.0)) (omega arith)
              ∙ get_or-take n (drop from buffer) (i - to) 0 (omega arith)
              ∙ get_or-drop from buffer (i - to) 0
              ∙ ap (λ k. get_or buffer k 0) {x = from + (i - to)} {y = start + i - at} (omega arith)
              ∙ sym (written_inside device at buffer (start + i) (omega arith) (omega arith))
        ]
      ],
    )

-- A write apart from the copy.
apart :
    (device : ℕ → ℕ) (start size : ℕ) (copy : List ℕ) (at : ℕ) (buffer : List ℕ)
    → Mirrors device start size copy
    → (at + length buffer ≤ start) ⊎ (start + size ≤ at)
    → Mirrors (written device at buffer) start size copy
apart device start size copy at buffer m h =
    (m.0, λ i lt. m.1 i lt ∙ sym (written_outside device at buffer (start + i) (omega arith)))

-- Saving the state leaves the information on the device alone.
kept :
    (saved : Bool) (ctx : Context) (P : DeviceInfo → Type 0)
    → P ctx.device_info
    → P (after_save saved ctx).device_info
unfolding after_save device_info_delete_state_file_name
kept true ctx P h = h
kept false ctx P h = h

-- When the copy of the beginning of the device agrees with the device before a write, it agrees
-- with it after the write and the update.
pub update_bod_buffer_lem :
    (saved : Bool) (ctx : Context) (device : ℕ → ℕ) (starting_byte : ℕ) (buffer : List ℕ)
    → Mirrors device 0 ctx.device_info.bod_mod_buffer_size ctx.device_info.bod_buffer
    → Mirrors
        (written device starting_byte buffer)
        0
        ctx.device_info.bod_mod_buffer_size
        (update_bod_buffer saved ctx starting_byte buffer (length buffer)).device_info.bod_buffer
unfolding update_bod_buffer was_bod_area_affected
update_bod_buffer_lem saved ctx device start buffer m =
    let size = ctx.device_info.bod_mod_buffer_size in
    let bod = ctx.device_info.bod_buffer in
    elim (Bool-cases (ltb start size)) [
      | inr far ↦ rw far (apart device 0 size bod start buffer m (inr (ground (arith, far))))
      | inl near ↦
          let lt = ltb→lt start size near in
          rw near (
            kept saved _
              (λ (d : DeviceInfo). Mirrors (written device start buffer) 0 size d.bod_buffer)
              (elim (Bool-cases (ltb size (length buffer + start))) [
                | inl over ↦
                    let o = ltb→lt size (length buffer + start) over in
                    rw over (
                      copied device 0 size bod start buffer start 0 (size - start) m (omega arith)
                        (omega arith) (omega arith) (inr refl) (inl (omega arith)))
                | inr under ↦
                    let u : length buffer + start ≤ size = ground (arith, under) in
                    rw under (
                      copied device 0 size bod start buffer start 0 (length buffer) m (omega arith)
                        (omega arith) (omega arith) (inr refl) (inr (omega arith)))
              ]))
    ]

-- When the copy of the middle of the device agrees with the device before a write of at least one
-- byte below position 2^64, it agrees with it after the write and the update, unless the write
-- begins before the middle and ends behind the copied part.
pub update_mod_buffer_lem :
    (saved : Bool) (ctx : Context) (device : ℕ → ℕ) (starting_byte : ℕ) (buffer : List ℕ)
    → let info = ctx.device_info in
      Mirrors device info.middle_of_device info.bod_mod_buffer_size info.mod_buffer
      → 0 < length buffer
      → starting_byte + length buffer ≤ 2 ^ 64
      → (info.middle_of_device ≤ starting_byte)
        ⊎ (starting_byte + length buffer ≤ info.middle_of_device + info.bod_mod_buffer_size)
      → Mirrors
          (written device starting_byte buffer)
          info.middle_of_device
          info.bod_mod_buffer_size
          (update_mod_buffer saved ctx starting_byte buffer (length buffer)).device_info.mod_buffer
unfolding update_mod_buffer was_mod_area_affected copy_to_mod
update_mod_buffer_lem saved ctx device start buffer m some_bytes fits inside =
    let size = ctx.device_info.bod_mod_buffer_size in
    let middle = ctx.device_info.middle_of_device in
    let bytes = ctx.device_info.mod_buffer in
    let n = length buffer in
    let ending : (start + n + (2 ^ 64 - 1)) % 2 ^ 64 ≡ start + n - 1 = omega arith in
    let affected =
      (leb middle start && ltb start (middle + size))
      || (leb middle (start + n - 1) && ltb (start + n - 1) (middle + size)) in
    rw ending (elim (Bool-cases affected) [
      | inr far ↦ rw far (apart device middle size bytes start buffer m (ground (arith, far)))
      | inl near ↦
          let hit : (start < middle + size) × (middle < start + n) = ground (arith, near) in
          rw near (
            kept saved _
              (λ (d : DeviceInfo). Mirrors (written device start buffer) middle size d.mod_buffer)
              (elim (Bool-cases (ltb start middle)) [
                | inl before ↦
                    let gap = middle - start in
                    let lt = ltb→lt start middle before in
                    let copy = λ (k : ℕ). copied device middle size bytes start buffer 0 gap k m in
                    rw before (elim (Bool-cases (ltb size (n - gap))) [
                      | inl over ↦
                          let o = ltb→lt size (n - gap) over in
                          rw over (
                            copy size (omega arith) (omega arith) (omega arith) (inl refl)
                              (inl (omega arith)))
                      | inr under ↦
                          let u : n - gap ≤ size = ground (arith, under) in
                          rw under (
                            copy (n - gap) (omega arith) (omega (arith, hit.1)) (omega arith)
                              (inl refl) (inr (omega (arith, hit.1))))
                    ])
                | inr after ↦
                    let offset = start - middle in
                    let ge : middle ≤ start = ground (arith, after) in
                    let copy =
                      λ (k : ℕ). copied device middle size bytes start buffer offset 0 k m in
                    rw after (elim (Bool-cases (ltb size (offset + n))) [
                      | inl over ↦
                          let o = ltb→lt size (offset + n) over in
                          rw over (
                            copy (size - offset) (omega arith) (omega arith) (omega (arith, hit.0))
                              (inr refl) (inl (omega (arith, hit.0))))
                      | inr under ↦
                          let u : offset + n ≤ size = ground (arith, under) in
                          rw under (
                            copy n (omega arith) (omega arith) (omega arith) (inr refl)
                              (inr (omega arith)))
                    ])
              ]))
    ])

-- A write that begins before the middle of the device and ends behind the copied part does not
-- update the copy, although it changes every byte that the copy stands for.
pub update_mod_buffer-spanning :
    (saved : Bool) (ctx : Context) (starting_byte : ℕ) (buffer : List ℕ)
    → starting_byte < ctx.device_info.middle_of_device
    → ctx.device_info.middle_of_device + ctx.device_info.bod_mod_buffer_size
      < starting_byte + length buffer
    → starting_byte + length buffer ≤ 2 ^ 64
    → update_mod_buffer saved ctx starting_byte buffer (length buffer) ≡ ctx
unfolding update_mod_buffer was_mod_area_affected
update_mod_buffer-spanning saved ctx start buffer before after fits =
    let size = ctx.device_info.bod_mod_buffer_size in
    let middle = ctx.device_info.middle_of_device in
    let n = length buffer in
    let ending : (start + n + (2 ^ 64 - 1)) % 2 ^ 64 ≡ start + n - 1 = omega arith in
    let unaffected : ((leb middle start && ltb start (middle + size))
          || (leb middle (start + n - 1) && ltb (start + n - 1) (middle + size)))
        ≡ false =
      ground arith in
    rw (ending, unaffected) refl
