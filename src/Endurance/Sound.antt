-- ===== src/Endurance/Sound.antt =====
-- The invariant of the sector map through the steps that the reading and the writing of a block
-- share.
use native.Mathlib.Nat.{div-lt_iff_lt-mul}
use mfst.Common.{
  ℕ, zero, suc, ◌-◌, ◌*◌, ◌/◌, ◌≤◌, ◌<◌, ◌≡◌, refl, sym, subst, arith, Bool, true, false, Option,
  none, some, [], ◌∷◌,
}
use mfst.Context.{Context}
use mfst.Device.{St}
use mfst.SectorMap.{mark_sector_bad, mark_sector_unwritable}
use mfst.SectorMap.Counts.{IsValid, run-IsValid, run, apply, unwritable, bad}
use mfst.Io.{andthen}
use mfst.Io.Keeps.{Keeps, Ends, settled}
use mfst.Endurance.{give_up_sector, count_shown, count_written, count_failed_write}

-- The map is valid, and the device still has `n` sectors of `size` bytes.
pub record Sound (n size : ℕ) (ctx : Context) : Type 0 where
  pub valid : IsValid ctx
  pub sectors : ctx.device_info.num_physical_sectors ≡ n
  pub sector_size : ctx.device_info.sector_size ≡ size

to_settled : {n size : ℕ} {ctx : Context} → Sound n size ctx → Sound n size (settled ctx)
to_settled s = record {
  valid = record {
    one_entry_each = s.valid.one_entry_each;
    counted = s.valid.counted;
    fits = s.valid.fits;
  };
  sectors = s.sectors;
  sector_size = s.sector_size;
}

from_settled : {n size : ℕ} (ctx : Context) → Sound n size (settled ctx) → Sound n size ctx
from_settled ctx s = record {
  valid = record {
    one_entry_each = s.valid.one_entry_each;
    counted = s.valid.counted;
    fits = s.valid.fits;
  };
  sectors = s.sectors;
  sector_size = s.sector_size;
}

-- Input and output keep it.
pub Keeps-Sound :
    {W : Type 0} {n size : ℕ} (st st' : St W)
    → Keeps st st'
    → Sound n size st.ctx
    → Sound n size st'.ctx
Keeps-Sound {n = n} {size = size} st st' k s =
    from_settled st'.ctx (subst (Sound n size) (sym k.same_context) (to_settled s))

pub give_up_sector-Sound :
    {n size : ℕ} (ctx : Context) (sector : ℕ)
    → sector < n
    → Sound n size ctx
    → Sound n size (give_up_sector ctx sector)
unfolding give_up_sector run apply mark_sector_bad mark_sector_unwritable
give_up_sector-Sound ctx sector h s = record {
  valid =
      run-IsValid (unwritable sector ∷ bad sector ∷ []) s.valid
        (omega (arith, s.sectors), (omega (arith, s.sectors), tt));
  sectors = s.sectors;
  sector_size = s.sector_size;
}

pub count_shown-Sound :
    {n size : ℕ} (ctx : Context) (k : ℕ) → Sound n size ctx → Sound n size (count_shown ctx k)
unfolding count_shown
count_shown-Sound ctx k s = record {
  valid = record {
    one_entry_each = s.valid.one_entry_each;
    counted = s.valid.counted;
    fits = s.valid.fits;
  };
  sectors = s.sectors;
  sector_size = s.sector_size;
}

pub count_written-Sound :
    {n size : ℕ} (ctx : Context) (k : ℕ) → Sound n size ctx → Sound n size (count_written ctx k)
unfolding count_written
count_written-Sound ctx k s = record {
  valid = record {
    one_entry_each = s.valid.one_entry_each;
    counted = s.valid.counted;
    fits = s.valid.fits;
  };
  sectors = s.sectors;
  sector_size = s.sector_size;
}

pub count_failed_write-Sound :
    {n size : ℕ} (ctx : Context) (k : ℕ)
    → Sound n size ctx
    → Sound n size (count_failed_write ctx k)
unfolding count_failed_write
count_failed_write-Sound ctx k s = record {
  valid = record {
    one_entry_each = s.valid.one_entry_each;
    counted = s.valid.counted;
    fits = s.valid.fits;
  };
  sectors = s.sectors;
  sector_size = s.sector_size;
}

module _ {W : Type 0} (n size : ℕ) where
  abbrev pub SoundSt : St W → Type 0
  SoundSt st = Sound n size st.ctx

  pub Sound-andthen :
      {A B : Type 0} (st : St W) (o : Option (A × St W)) (next : A → St W → Option (B × St W))
      → Ends (Keeps st) o
      → SoundSt st
      → ((a : A) (st' : St W) → SoundSt st' → Ends SoundSt (next a st'))
      → Ends SoundSt (andthen o next)
  Sound-andthen st none next k s h = tt
  Sound-andthen st (some r) next k s h = h r.0 r.1 (Keeps-Sound st r.1 k s)

  pub Sound-branch :
      {A : Type 0} (b : Bool) (x y : Option (A × St W))
      → (b ≡ true → Ends SoundSt x)
      → (b ≡ false → Ends SoundSt y)
      → Ends SoundSt (elim b [ true ↦ x | false ↦ y ])
  Sound-branch true x y p q = p refl
  Sound-branch false x y p q = q refl

-- The sector at which a part of the block that is left begins.
pub sector_in_block :
    (size num left : ℕ) → left ≤ size * num → 0 < left → (size * num - left) / size < num
sector_in_block zero num left le pos = absurd (omega arith)
sector_in_block (suc size) num left le pos =
    let k : 0 < suc size = omega arith in
    (div-lt_iff_lt-mul {k = suc size} {x = suc size * num - left} {y = num} k).1 (omega arith)
