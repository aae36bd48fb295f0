-- ===== src/Endurance/WritesKeep.antt =====
-- The invariant of the sector map through `endurance_test_write_block`.
use native.Mathlib.Nat.{div-lt_iff_lt-mul, mul-le-mul_right, div-le_self}
use mfst.Common.{
  ℕ, zero, suc, ◌+◌, ◌-◌, ◌*◌, ◌/◌, ◌%◌, ◌^◌, ◌≤◌, ◌<◌, ◌≡◌, sym, subst, ap, arith, Bool,
  Bool-cases, inl, inr, true, false, ◌||◌, Option, none, some, List, drop, ◌==◌,
}
use mfst.Common.Memory.{slice}
use mfst.Context.{Context, device_info_delete_state_file_name}
use mfst.Device.{Device, St, is_none}
use mfst.Io.{lseek_or_retry}
use mfst.Io.Transfers.{write_or_reset_device}
use mfst.Io.Keeps.{Ends}
use mfst.Io.KeepsAll.{lseek_or_retry-Keeps}
use mfst.Io.KeepsTransfers.{write_or_reset_device-Keeps}
use mfst.SectorMap.{get_max_writable_sectors, get_max_unwritable_sectors, scan}
use mfst.Buffers.{
  was_bod_area_affected, was_mod_area_affected, after_save, update_bod_buffer, update_mod_buffer,
}
use mfst.Endurance.{with_ctx, give_up_sector, count_failed_write}
use mfst.Endurance.Sound.{
  Sound, SoundSt, Sound-andthen, Sound-branch, give_up_sector-Sound, count_shown-Sound,
  count_written-Sound, count_failed_write-Sound,
}
use mfst.Endurance.Writes.{
  Progress, Next, save_bod, save_mod, update_buffers, finish_round, skip_unwritable, after_write,
  write_block_loop, endurance_test_write_block,
}

after_save-Sound :
    {n size : ℕ} (saved : Bool) (ctx : Context)
    → Sound n size ctx
    → Sound n size (after_save saved ctx)
unfolding after_save device_info_delete_state_file_name
after_save-Sound true ctx s = s
after_save-Sound false ctx s = record {
  valid = record {
    one_entry_each = s.valid.one_entry_each;
    counted = s.valid.counted;
    fits = s.valid.fits;
  };
  sectors = s.sectors;
  sector_size = s.sector_size;
}

update_bod_buffer-Sound :
    {n size : ℕ} (saved : Bool) (ctx : Context) (at : ℕ) (buffer : List ℕ) (k : ℕ)
    → Sound n size ctx
    → Sound n size (update_bod_buffer saved ctx at buffer k)
unfolding update_bod_buffer
update_bod_buffer-Sound saved ctx at buffer k s = elim (Bool-cases (was_bod_area_affected ctx at)) [
  | inr far ↦ rw far s
  | inl near ↦ rw near (
      after_save-Sound saved _ (record {
        valid = record {
          one_entry_each = s.valid.one_entry_each;
          counted = s.valid.counted;
          fits = s.valid.fits;
        };
        sectors = s.sectors;
        sector_size = s.sector_size;
      }))
]

update_mod_buffer-Sound :
    {n size : ℕ} (saved : Bool) (ctx : Context) (at : ℕ) (buffer : List ℕ) (k : ℕ)
    → Sound n size ctx
    → Sound n size (update_mod_buffer saved ctx at buffer k)
unfolding update_mod_buffer
update_mod_buffer-Sound saved ctx at buffer k s =
    elim (Bool-cases (was_mod_area_affected ctx at ((at + k + (2 ^ 64 - 1)) % 2 ^ 64))) [
      | inr far ↦ rw far s
      | inl near ↦ rw near (
          after_save-Sound saved _ (record {
            valid = record {
              one_entry_each = s.valid.one_entry_each;
              counted = s.valid.counted;
              fits = s.valid.fits;
            };
            sectors = s.sectors;
            sector_size = s.sector_size;
          }))
    ]

-- The sector at which the part of the block that is left begins.
current_sector-lt :
    (size num left : ℕ)
    → left ≤ num * size
    → 0 < left / size
    → 0 < size
    → (num - left / size) * size / size < num
current_sector-lt size zero left le pos size-pos = absurd (omega (arith, div-le_self left size))
current_sector-lt size (suc num) left le pos size-pos =
    let x = suc num - left / size in
    let few : x + 1 ≤ suc num = omega arith in
    (div-lt_iff_lt-mul {x = x * size} {y = suc num} size-pos).1
      (omega (arith, mul-le-mul_right size few))

size-pos : (size num left : ℕ) → left ≤ num * size → 0 < left → 0 < size
size-pos zero num left le pos = absurd (omega arith)
size-pos (suc size) num left le pos = omega arith

sector_in_block :
    (size num sz left : ℕ)
    → sz ≡ size
    → left ≤ num * size
    → 0 < left / sz
    → (num - left / sz) * sz / size < num
sector_in_block size num sz left e le pos =
    subst (λ (z : ℕ). 0 < left / z → (num - left / z) * z / size < num) (sym e)
      (λ h.
        current_sector-lt size num left le h
          (size-pos size num left le (omega (arith, div-le_self left size))))
      pos

-- A block of no sectors has no writable ones.
writable-lt : (ctx : Context) (s r : ℕ) → (get_max_writable_sectors ctx s r == 0) ≡ false → 0 < r
unfolding get_max_writable_sectors scan
writable-lt ctx s zero h = absurd (ground (arith, h))
writable-lt ctx s (suc r) h = omega arith

module _ {W : Type 0} (dev : Device W) (n size start num : ℕ) (fits : start + num ≤ n) where
  abbrev NextSound : Next W → Type 0
  NextSound next =
      (p : Progress) (st : St W)
      → p.num_bytes_remaining ≤ num * size
      → SoundSt n size st
      → Ends (SoundSt n size) (next p st)

  update_buffers-Sound :
      (at : ℕ) (buffer : List ℕ) (k : ℕ) (st : St W)
      → SoundSt n size st
      → SoundSt n size (update_buffers dev at buffer k st)
  unfolding update_buffers save_bod save_mod
  update_buffers-Sound at buffer k st s =
      update_mod_buffer-Sound _ _ at buffer k (update_bod_buffer-Sound _ st.ctx at buffer k s)

  module _ (next : Next W) (going_on : NextSound next) where
    finish_round-Sound :
        (current_byte starting_byte : ℕ) (buffer : List ℕ)
        → NextSound (finish_round dev current_byte starting_byte buffer next)
    unfolding finish_round
    finish_round-Sound current_byte starting_byte buffer p st le s =
        let rest = drop (current_byte - starting_byte) buffer in
        going_on p _ le (
          count_written-Sound _ p.ret (
            count_shown-Sound _ p.ret
              (update_buffers-Sound current_byte rest p.num_bytes_affected_this_round st s)))

    skip_unwritable-Sound :
        (inner current_byte num_bytes_written num_sectors_remaining : ℕ) (buffer : List ℕ)
        → NextSound (
            skip_unwritable dev inner start current_byte num_bytes_written num_sectors_remaining
              buffer next)
    unfolding skip_unwritable
    skip_unwritable-Sound inner current_byte bytes_written remaining buffer p st le s =
        let sz = st.ctx.device_info.sector_size in
        let k = get_max_unwritable_sectors st.ctx (start + bytes_written / sz) remaining in
        let affected = p.num_sectors_affected_this_round + k in
        let skipped = record p {
          num_bytes_remaining = p.num_bytes_remaining - k * sz;
          num_sectors_affected_this_round = affected;
          num_bytes_affected_this_round = affected * sz;
        } in
        let position = start * sz + (bytes_written + k * sz) in
        Sound-branch n size st.device_was_disconnected _ _ (λ gone. s)
          (λ present.
            Sound-branch n size (k == 0) _ _
              (λ nothing. finish_round-Sound current_byte (start * sz) buffer p st le s)
              (λ some_sectors.
                Sound-andthen n size st (lseek_or_retry dev inner true position st) _
                  (lseek_or_retry-Keeps dev inner true position st) s
                  (λ offset st' s'.
                    Sound-branch n size (is_none offset) _ _ (λ lost. s')
                      (λ there.
                        finish_round-Sound current_byte (start * sz) buffer skipped st'
                          (omega arith) s'))))

    after_write-Sound :
        (inner current_byte num_bytes_written : ℕ) (buffer : List ℕ) (ret : Option ℕ) (p : Progress)
        (st : St W)
        → p.num_bytes_remaining ≤ num * size
        → num_bytes_written / size < num
        → SoundSt n size st
        → Ends
            (SoundSt n size)
            (after_write dev inner start num current_byte num_bytes_written buffer next ret p st)
    unfolding after_write
    after_write-Sound inner current_byte bytes_written buffer (some k) p st le inside s =
        skip_unwritable-Sound inner current_byte (bytes_written + k) _ buffer _ st (omega arith) s
    after_write-Sound inner current_byte bytes_written buffer none p st le inside s =
        let sz = st.ctx.device_info.sector_size in
        let sector = start + bytes_written / sz in
        let same : bytes_written / sz ≡ bytes_written / size =
          ap (λ (k : ℕ). bytes_written / k) s.sector_size in
        let counted = count_failed_write st.ctx sector in
        let st1 = with_ctx st (give_up_sector counted sector) in
        let s1 : SoundSt n size st1 =
          give_up_sector-Sound counted sector (omega (arith, same))
            (count_failed_write-Sound st.ctx sector s) in
        Sound-branch n size (is_none st.ctx.device_info.fd) _ _ (λ closed. s)
          (λ opened.
            Sound-andthen n size st1 (lseek_or_retry dev inner true (current_byte + sz) st1) _
              (lseek_or_retry-Keeps dev inner true (current_byte + sz) st1) s1
              (λ offset st' s'.
                Sound-branch n size (is_none offset) _ _ (λ lost. s')
                  (λ there. going_on _ st' (omega arith) s')))

  write_block_loop-Sound :
      (fuel inner : ℕ) (buffer : List ℕ)
      → NextSound (write_block_loop dev fuel inner start num buffer)
  unfolding write_block_loop
  write_block_loop-Sound zero inner buffer p st le s =
      Sound-branch n size (p.num_bytes_remaining == 0 || st.device_was_disconnected) _ _
        (λ finished. s) (λ unfinished. tt)
  write_block_loop-Sound (suc fuel) inner buffer p st le s =
      let next = write_block_loop dev fuel inner start num buffer in
      let going_on = write_block_loop-Sound fuel inner buffer in
      let sz = st.ctx.device_info.sector_size in
      let remaining = p.num_bytes_remaining / sz in
      let sectors = num - remaining in
      let current_byte = (start + sectors) * sz in
      let k = get_max_writable_sectors st.ctx (start + sectors) remaining in
      let data_bytes = slice buffer (sectors * sz) (k * sz) in
      Sound-branch n size (p.num_bytes_remaining == 0 || st.device_was_disconnected) _ _
        (λ finished. s)
        (λ unfinished.
          Sound-branch n size (k == 0) _ _
            (λ nothing.
              skip_unwritable-Sound next going_on inner current_byte (sectors * sz) remaining buffer
                p st le s)
            (λ some_sectors.
              Sound-andthen n size st (write_or_reset_device dev inner data_bytes current_byte st) _
                (write_or_reset_device-Keeps dev inner data_bytes current_byte st) s
                (λ ret st' s'.
                  after_write-Sound next going_on inner current_byte (sectors * sz) buffer ret p st'
                    le
                    (sector_in_block size num sz p.num_bytes_remaining s.sector_size le
                      (writable-lt st.ctx (start + sectors) remaining some_sectors))
                    s')))

-- When endurance_test_write_block ends, with whatever code, the sector map has kept its invariant
-- and the device its geometry, however the device behaves, provided that the block lies on the
-- device.
pub endurance_test_write_block-Sound :
    {W : Type 0} (dev : Device W) (fuel inner affected bytes_affected n size start num : ℕ)
    → (buffer : List ℕ) (st : St W) → start + num ≤ n
    → Sound n size st.ctx
    → Ends
        (SoundSt n size)
        (endurance_test_write_block dev fuel inner affected bytes_affected start num buffer st)
unfolding endurance_test_write_block
endurance_test_write_block-Sound dev fuel inner affected bytes_affected n size start num buffer st
      fits s =
    let all : num * st.ctx.device_info.sector_size ≤ num * size =
      omega (arith, ap (λ (k : ℕ). num * k) s.sector_size) in
    write_block_loop-Sound dev n size start num fits fuel inner buffer _ _ all s
