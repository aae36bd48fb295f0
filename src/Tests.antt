-- ===== src/Tests.antt =====
-- A small device to run the program on: four sectors of 512 bytes, of which the third is known to
-- be bad and the fourth is unusable, and a world that counts how often the device comes back.
mod Devices
mod Files
mod StateFile
mod Blocks
mod Capacities
mod InputOutput
mod Maps
mod Numbers
use Prim.Native.String.{String}
use mfst.Common.{
  ℕ, zero, suc, ◌+◌, ◌*◌, ◌%◌, ◌^◌, ◌≤◌, ◌<◌, ◌≡◌, refl, arith, true, false, Option, none, some,
  List, [], ◌∷◌, length, ltb, replicate, if◌then◌else◌,
}
use mfst.Common.Memory.{IsBytes}
use mfst.Context.{
  Context, DeviceInfo, EnduranceTestInfo, fake_flash_no, phase_writing, unset, zero_time,
  fresh_device, fresh_endurance,
}
use mfst.Device.{DeviceSearchResult, Errno, enodev, Device, MainThreadStatus, writing, St, is_none}
use mfst.SectorMap.Counts.{IsValid, count_bad}
use mfst.Endurance.Sound.{Sound}
use mfst.Io.Returns.{ComesBack, WaitEnds}

abbrev pub test_info : DeviceInfo
test_info = record (fresh_device (replicate 8 0) (replicate 8 0) 8) {
  sector_size = 512;
  num_physical_sectors = 4;
  middle_of_device = 1024;
  device_uuid = replicate 16 7;
  fd = some 3;
  optimal_block_size = 1024;
}

abbrev pub test_context : Context
test_context = record {
  device_info = test_info;
  optimal_block_size_test_info = record { test_performed = false; optimal_block_size = 0 };
  capacity_test_info = record {
    test_performed = false;
    is_fake_flash = fake_flash_no;
    device_size = 0;
    num_sectors = 0;
  };
  endurance_test_info = record fresh_endurance {
    sector_map = 0 ∷ 0 ∷ 1 ∷ 16 ∷ [];
    total_bad_sectors = 1;
  };
  state_file_name = none;
  log_file_name = none;
}

abbrev pub second_round : Context
second_round = record test_context {
  endurance_test_info = record (test_context.endurance_test_info) { rounds_completed = 1 };
}

pub test_context-IsValid : IsValid test_context
test_context-IsValid = record { one_entry_each = refl; counted = refl; fits = omega arith }

pub test_context-Sound : Sound 4 512 test_context
test_context-Sound = record { valid = test_context-IsValid; sectors = refl; sector_size = refl }

abbrev pub test_found : DeviceSearchResult
test_found = record { device_name = "/dev/sdb"; device_num = 17; fd = 4 }

-- A device that is gone as long as it can still come back; then a wait for it fails.
abbrev pub come_back : ℕ → Option DeviceSearchResult × ℕ
come_back zero = (none, zero)
come_back (suc w) = (some test_found, w)

abbrev pub test_device : Device ℕ
test_device = record {
  lseek = λ fd p w. (some p, w);
  tell = λ fd w. (some 0, w);
  read = λ fd n w. (if ltb 0 w then none else some (replicate n 0), w);
  write = λ fd b w. (if ltb 0 w then none else some (length b), w);
  close = λ fd w. w;
  strdup = λ s w. (some s, w);
  did_device_disconnect = λ n w. (ltb 0 w, w);
  receive_match = λ ctx w. some (come_back w);
  create_device_search_result = λ found w. (some found, w);
  save_state = λ ctx w. (true, w);
  can_reset_device = λ ctx w. (true, w);
  open_usb_device = λ fd w. (none, w);
  usb_reset = λ fd w. (true, w);
  search_device = λ ctx name w. (none, enodev, w);
}

come_back-WaitEnds : (w : ℕ) → WaitEnds (λ v. v) w (some (come_back w))
come_back-WaitEnds zero = omega arith
come_back-WaitEnds (suc w) = omega arith

pub test_device-ComesBack : ComesBack test_device (λ w. w)
test_device-ComesBack = record {
  lseek = λ fd p w. omega arith;
  tell = λ fd w. omega arith;
  save = λ ctx w. omega arith;
  read = λ fd n w. omega arith;
  write = λ fd b w. omega arith;
  close = λ fd w. omega arith;
  strdup = λ s w. omega arith;
  gone = λ n w. omega arith;
  wait = λ ctx w. come_back-WaitEnds w;
  make_result = λ found w. omega arith;
  can_reset = λ ctx w. omega arith;
  open_usb = λ fd w. omega arith;
  usb_reset = λ fd w. omega arith;
  search = λ ctx name w. omega arith;
}

abbrev pub test_state : Context → ℕ → St ℕ
test_state ctx w = record {
  ctx = ctx;
  world = w;
  main_thread_status = writing;
  device_was_disconnected = false;
  option_device_name = none;
}

pub replicate-IsBytes : (n v : ℕ) → v < 256 → IsBytes (replicate n v)
replicate-IsBytes zero v h = tt
replicate-IsBytes (suc n) v h = (h, replicate-IsBytes n v h)

-- A checksum and a generator to run the code with.
abbrev pub test_crc : ℕ → List ℕ → ℕ
test_crc s bytes = length bytes % 2 ^ 32

abbrev pub test_random : ℕ → ℕ → ℕ
test_random seed drawn = (seed * 16807 + drawn * 48271) % 2 ^ 31
