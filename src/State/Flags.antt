-- ===== src/State/Flags.antt =====
-- The flags of a sector after its map has been packed and unpacked.
use mfst.Common.{ℕ, ◌<◌, ◌≡◌, sym, ap, ◌∙◌, arith, true, false, List}
use mfst.Common.{length, get_or, ◌==◌}
use mfst.Common.Bits.{test_bit, test_bit-lt}
use mfst.SectorMap.{do_not_use, failed_this_round, failed, has_flag}
use mfst.SectorMap.Flags.{has_flag_digit}
use mfst.State.Pack.{pack, unpack}
use mfst.State.Restored.{restored_flags, unpack-pack}

module _ (e : ℕ) where
  failed_lem : has_flag failed (restored_flags e) ≡ has_flag failed e
  failed_lem =
      has_flag_digit 0 (restored_flags e)
      ∙ ap (λ t. t == 1)
          (let h : test_bit (restored_flags e) 0 ≡ test_bit e 0 =
              omega (arith, test_bit-lt 4 e, test_bit-lt 0 e) in
            h)
      ∙ sym (has_flag_digit 0 e)

  failed_this_round_lem : has_flag failed_this_round (restored_flags e) ≡ has_flag do_not_use e
  failed_this_round_lem =
      has_flag_digit 3 (restored_flags e)
      ∙ ap (λ t. t == 1)
          (let h : test_bit (restored_flags e) 3 ≡ test_bit e 4 =
              omega (arith, test_bit-lt 4 e, test_bit-lt 0 e) in
            h)
      ∙ sym (has_flag_digit 4 e)

  do_not_use_lem : has_flag do_not_use (restored_flags e) ≡ false
  do_not_use_lem =
      has_flag_digit 4 (restored_flags e)
      ∙ ap (λ t. t == 1)
          (let h : test_bit (restored_flags e) 4 ≡ 0 =
              omega (arith, test_bit-lt 4 e, test_bit-lt 0 e) in
            h)

-- A sector of a saved map comes back as failed exactly when it had failed; one that was marked as
-- not to be used comes back as failed in this round, and none comes back as not to be used; the
-- map has room for every sector.
pub unpack-pack_flags :
    (m base : List ℕ) (n j : ℕ)
    → length base ≡ n
    → j < n
    → (has_flag failed (get_or (unpack true n (pack m n) base) j 0)
        ≡ has_flag failed (get_or m j 0))
      × ((has_flag failed_this_round (get_or (unpack true n (pack m n) base) j 0)
            ≡ has_flag do_not_use (get_or m j 0))
          × (has_flag do_not_use (get_or (unpack true n (pack m n) base) j 0) ≡ false))
unpack-pack_flags m base n j e lt =
    let h = unpack-pack m n base j e lt in
    let f = get_or m j 0 in
    (
      ap (has_flag failed) h ∙ failed_lem f,
      (
        ap (has_flag failed_this_round) h ∙ failed_this_round_lem f,
        ap (has_flag do_not_use) h ∙ do_not_use_lem f,
      ),
    )
