-- ===== src/Tests/Devices.antt =====
-- The search for the device, on a device of zeroes with sectors of four bytes.
use Prim.Native.String.{String}
use mfst.Common.{
  ℕ, ◌≡◌, refl, arith, true, false, none, some, List, [], ◌∷◌, replicate, if◌then◌else◌, leb, ◌⊎◌,
  inl, inr, All, ◌+◌, subst,
}
use mfst.Context.{device_info_set_device_name, Context, fresh_device}
use mfst.Identical.{missing}
use mfst.Search.{matching, differing, DeviceFile}
use mfst.Search.Adopts.{Adopted, find_device-Adopted}
use mfst.Search.BodMod.{
  compare_bod_mod_data, seek_area, read_area, read_writable, skip_unwritable, judge_middle,
  count_same,
}
use mfst.Search.Find.{
  BlockDevice, Finder, find_device, find_preferred, find_among_all, scan_devices, check_device,
  identify, add_match, take_matched, adopt_device,
}
use mfst.Search.Uuids.{check_sectors, compare_device_uuids}
use mfst.Search.Uuids.Verdicts.{count_ours, check_sectors-count_ours}
use mfst.Sector.{get_embedded_device_uuid}
use mfst.SectorMap.{get_max_writable_sectors, get_max_unwritable_sectors, scan}
use mfst.Verify.{same_bytes}
use mfst.Tests.{test_context}

abbrev small_context : Context
small_context = record test_context {
  device_info = record (fresh_device (replicate 8 0) (replicate 8 0) 8) {
    sector_size = 4;
    num_physical_sectors = 4;
    logical_size = 1024;
    physical_size = 16;
    device_uuid = get_embedded_device_uuid (replicate 512 0);
  };
}

-- The world counts the calls of `random`.
abbrev zeroes : DeviceFile ℕ
zeroes = record {
  sector_size = λ fd w. (some 4, w);
  lseek = λ fd p w. (true, w);
  read = λ fd n w. (some (replicate n 0), w);
  malloc = λ n w. (some (replicate n 1), w);
  random = λ w. (w, w + 1);
  srandom = λ w. w;
}

abbrev listed : List BlockDevice
listed =
    record { devnode = some "/dev/sda"; size = some 7 }
    ∷ record { devnode = some "/dev/sdb"; size = some 2 }
    ∷ []

abbrev test_finder : Finder ℕ
test_finder = record {
  open_device = λ name rw w. (some 5, w);
  close = λ fd w. w;
  reported_size = λ fd w. (some 1024, w);
  device_number = λ name w. (some 17, w);
  stat = λ name w. (missing, w);
  strdup = λ s w. (some s, w);
  allocate = λ w. (true, w);
  block_devices = λ w. (some listed, w);
  monitor = λ w. (true, w);
  receive_device = λ w. (none, w);
  usleep = λ w. w;
}

abbrev no_crc : ℕ → List ℕ → ℕ
no_crc start bytes = 0

abbrev kept_memory : List ℕ → List ℕ
kept_memory bytes = bytes

abbrev IsListed : BlockDevice → Type 0
IsListed device = (device.devnode ≡ some "/dev/sda") ⊎ (device.devnode ≡ some "/dev/sdb")

abbrev adopted : Context
adopted = record small_context {
  device_info = record (small_context.device_info) {
    device_name = some "/dev/sdb";
    device_num = 17;
    fd = some 5;
  };
}

listed-IsListed : (devices : List BlockDevice) → some listed ≡ some devices → All IsListed devices
listed-IsListed devices e =
    subst (All IsListed) (let h : listed ≡ devices = cc e in h) (inl refl, (inr refl, tt))

copies : (s t : String) (w : ℕ) → (test_finder.strdup s w).0 ≡ some t → t ≡ s
copies s t w e = cc e

found :
    find_device zeroes test_finder no_crc kept_memory 9 none false small_context 0
    ≡ some (none, (adopted, 0))
unfolding find_device find_among_all scan_devices check_device identify compare_bod_mod_data
    seek_area read_area read_writable get_max_writable_sectors scan skip_unwritable
    get_max_unwritable_sectors same_bytes add_match take_matched adopt_device
    device_info_set_device_name
found = refl

-- A device of the same size with other contents is taken when it is the preferred one.
abbrev ones : DeviceFile ℕ
ones = record zeroes { read = λ fd n w. (some (replicate n 1), w) }

wrong_device :
    find_device ones test_finder no_crc kept_memory 9 (some "/dev/sdb") true small_context 0
    ≡ some (none, (adopted, 0))
unfolding find_device find_preferred identify compare_bod_mod_data compare_device_uuids seek_area
    read_area read_writable get_max_writable_sectors scan skip_unwritable get_max_unwritable_sectors
    same_bytes judge_middle count_same adopt_device device_info_set_device_name
wrong_device = refl

find_device-Adopted_example :
    Adopted zeroes test_finder no_crc kept_memory 9 small_context IsListed copies adopted
find_device-Adopted_example =
    find_device-Adopted zeroes test_finder no_crc kept_memory 9 small_context IsListed copies none 0
      0 adopted listed-IsListed found

check_sectors-count_ours_example :
    (check_sectors zeroes no_crc small_context 5 512 2 (3 ∷ 1 ∷ 0 ∷ []) 0 0).0 ≡ (
      if leb 2 (0 + count_ours zeroes no_crc small_context 5 512 (3 ∷ 1 ∷ 0 ∷ []) 0)
      then matching
      else differing)
check_sectors-count_ours_example =
    check_sectors-count_ours zeroes no_crc small_context 5 512 2 (λ p w. refl) (3 ∷ 1 ∷ 0 ∷ []) 0 0
      (omega arith)
