-- ===== src/Endurance/ReadsKeep.antt =====
-- The invariant of the sector map through `endurance_test_read_block`.
use mfst.Common.{
  ℕ, zero, suc, ◌+◌, ◌-◌, ◌*◌, ◌/◌, ◌≤◌, ◌<◌, ◌≡◌, sym, subst, ap, arith, false, Option, none, some,
  List, length, ◌==◌,
}
use mfst.Device.{Device, St, is_none, call}
use mfst.Io.{lseek_or_retry}
use mfst.Io.Transfers.{read_or_reset_device}
use mfst.Io.Keeps.{Ends}
use mfst.Io.KeepsAll.{lseek_or_retry-Keeps}
use mfst.Io.KeepsTransfers.{read_or_reset_device-Keeps}
use mfst.SectorMap.{get_max_writable_sectors, get_max_unwritable_sectors}
use mfst.Endurance.{or_minus_one, with_ctx, give_up_sector, count_shown, clear_bytes}
use mfst.Endurance.Sound.{
  Sound, SoundSt, Sound-andthen, Sound-branch, give_up_sector-Sound, count_shown-Sound,
  sector_in_block,
}
use mfst.Endurance.Reads.{
  Next, seek_and, read_unwritable, after_read, read_block_loop, endurance_test_read_block,
}

module _ {W : Type 0} (dev : Device W) (n size start num : ℕ) (fits : start + num ≤ n) where
  abbrev block : ℕ
  block = size * num

  -- Every way to go on keeps the invariant.
  abbrev NextSound : Next W → Type 0
  NextSound next =
      (left : ℕ) (buffer : List ℕ) (st : St W)
      → left ≤ block
      → SoundSt n size st
      → Ends (SoundSt n size) (next left buffer st)

  module _ (inner : ℕ) (next : Next W) (going_on : NextSound next) where
    seek_and-Sound : NextSound (seek_and dev inner start block next)
    unfolding seek_and
    seek_and-Sound left buffer st le s =
        let position = start * st.ctx.device_info.sector_size + (block - left) in
        Sound-andthen n size st (lseek_or_retry dev inner false position st) _
          (lseek_or_retry-Keeps dev inner false position st) s
          (λ offset st' s'.
            Sound-branch n size (is_none offset) _ _ (λ lost. s')
              (λ there. going_on left buffer st' le s'))

    read_unwritable-Sound : NextSound (read_unwritable dev inner start block next)
    unfolding read_unwritable
    read_unwritable-Sound left buffer st le s =
        let sz = st.ctx.device_info.sector_size in
        let done = block - left in
        let k = get_max_unwritable_sectors st.ctx (start + done / sz) (left / sz) in
        Sound-branch n size (left == 0) _ _ (λ finished. going_on left buffer st le s)
          (λ unfinished.
            Sound-branch n size (k == 0) _ _ (λ nothing. going_on left buffer st le s)
              (λ some_sectors.
                seek_and-Sound (left - k * sz) (clear_bytes buffer done (k * sz)) st (omega arith)
                  s))

    after_read-Sound :
        (ret : Option (List ℕ)) (left : ℕ) (buffer : List ℕ) (st : St W)
        → left ≤ block
        → 0 < left
        → SoundSt n size st
        → Ends (SoundSt n size) (after_read dev inner start block next ret left buffer st)
    unfolding after_read
    after_read-Sound (some bytes) left buffer st le pos s =
        read_unwritable-Sound (left - length bytes) _
          (with_ctx st (count_shown st.ctx (length bytes))) (omega arith)
          (count_shown-Sound st.ctx (length bytes) s)
    after_read-Sound none left buffer st le pos s =
        let sz = st.ctx.device_info.sector_size in
        let sector = start + (block - left) / sz in
        let same : (block - left) / sz ≡ (block - left) / size =
          ap (λ k. (block - left) / k) s.sector_size in
        let inside : sector < n = omega (arith, same, sector_in_block size num left le pos) in
        Sound-branch n size (is_none st.ctx.device_info.fd) _ _ (λ closed. s)
          (λ opened.
            seek_and-Sound (left - sz) (clear_bytes buffer (block - left) sz)
              (with_ctx st (give_up_sector st.ctx sector)) (omega arith)
              (give_up_sector-Sound st.ctx sector inside s))

  read_block_loop-Sound : (fuel inner : ℕ) → NextSound (read_block_loop dev fuel inner start block)
  unfolding read_block_loop
  read_block_loop-Sound zero inner left buffer st le s =
      Sound-branch n size (left == 0) _ _ (λ finished. s) (λ unfinished. tt)
  read_block_loop-Sound (suc fuel) inner left buffer st le s =
      let next = read_block_loop dev fuel inner start block in
      let going_on = read_block_loop-Sound fuel inner in
      let sz = st.ctx.device_info.sector_size in
      let k = get_max_writable_sectors st.ctx (start + (block - left) / sz) (left / sz) in
      let here = call (dev.tell st.ctx.device_info.fd) st in
      Sound-branch n size (left == 0) _ _ (λ finished. s)
        (λ unfinished.
          Sound-branch n size (k == 0) _ _
            (λ nothing. read_unwritable-Sound inner next going_on left buffer st le s)
            (λ some_sectors.
              Sound-andthen n size here.1
                (read_or_reset_device dev inner (k * sz) (or_minus_one here.0) here.1) _
                (read_or_reset_device-Keeps dev inner (k * sz) (or_minus_one here.0) here.1) s
                (λ ret st' s'.
                  after_read-Sound inner next going_on ret left buffer st' le
                    (ground (arith, unfinished)) s')))

-- When endurance_test_read_block ends, with success or not, the sector map has kept its invariant
-- and the device its geometry, however the device behaves, provided that the block lies on the
-- device.
pub endurance_test_read_block-Sound :
    {W : Type 0} (dev : Device W) (fuel inner n size start num : ℕ) (buffer : List ℕ) (st : St W)
    → start + num ≤ n
    → Sound n size st.ctx
    → Ends (SoundSt n size) (endurance_test_read_block dev fuel inner start num buffer st)
unfolding endurance_test_read_block
endurance_test_read_block-Sound dev fuel inner n size start num buffer st fits s =
    subst (λ (b : ℕ). Ends (SoundSt n size) (read_block_loop dev fuel inner start b b buffer st))
      (ap (λ (k : ℕ). k * num) (sym s.sector_size))
      (read_block_loop-Sound dev n size start num fits fuel inner (size * num) buffer st
        (omega arith) s)
