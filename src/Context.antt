-- ===== src/Context.antt =====
-- device_testing_context.h and device_testing_context.c: what the program keeps about the device
-- under test, and the functions that create it and reset parts of it.
--
-- `fd` is `none` for the -1 of a closed handle, a `char *` that may be NULL is an option, an `int`
-- flag is a Boolean, a buffer is the list of its bytes (the empty list before `malloc`). The state
-- of random_r is the seed that it was last given and the count of numbers drawn since. Left out
-- are the measured speeds (floating point), the handle of the statistics file, and fields that
-- no function of the program reads.
use Prim.Native.String.{String}
use mfst.Common.{ℕ, ◌-◌, ◌^◌, Bool, true, false, Option, none, some, List, [], replicate}

-- FakeFlashEnum of fake_flash_enum.h
pub data FakeFlash : Type 0 where
  fake_flash_unknown fake_flash_yes fake_flash_no : FakeFlash

pub data Phase : Type 0 where
  phase_unset phase_reading phase_writing : Phase

pub record Timeval : Type 0 where
  pub tv_sec : ℕ
  pub tv_usec : ℕ

pub record DeviceInfo : Type 0 where
  pub device_name : Option String
  pub logical_size : ℕ
  pub physical_size : ℕ
  pub middle_of_device : ℕ
  pub sector_size : ℕ
  pub max_sectors_per_request : ℕ
  pub num_logical_sectors : ℕ
  pub num_physical_sectors : ℕ
  pub device_num : ℕ
  pub device_uuid : List ℕ
  pub fd : Option ℕ
  pub optimal_block_size : ℕ
  pub is_fake_flash : FakeFlash
  pub bod_buffer : List ℕ
  pub mod_buffer : List ℕ
  pub bod_mod_buffer_size : ℕ

pub record OptimalBlockSizeTestInfo : Type 0 where
  pub test_performed : Bool
  pub optimal_block_size : ℕ

pub record CapacityTestInfo : Type 0 where
  pub test_performed : Bool
  pub is_fake_flash : FakeFlash
  pub device_size : ℕ
  pub num_sectors : ℕ

pub record StatsFileCounters : Type 0 where
  pub total_bytes_written : ℕ
  pub total_bytes_read : ℕ
  pub last_update_time : Timeval
  pub last_bytes_written : ℕ
  pub last_bytes_read : ℕ
  pub last_bad_sectors : ℕ

pub record ScreenCounters : Type 0 where
  pub last_update_time : Timeval
  pub bytes_since_last_update : ℕ

pub record RngState : Type 0 where
  pub initial_seed : ℕ
  pub current_seed : ℕ
  pub seeded : ℕ
  pub drawn : ℕ

pub record EnduranceTestInfo : Type 0 where
  pub test_started : Bool
  pub current_phase : Phase
  pub rounds_completed : ℕ
  pub total_bad_sectors : ℕ
  pub num_bad_sectors_this_round : ℕ
  pub num_new_bad_sectors_this_round : ℕ
  pub num_good_sectors_this_round : ℕ
  pub sector_map : List ℕ
  pub sectors_to_0_1_threshold : ℕ
  pub sectors_to_1_threshold : ℕ
  pub sectors_to_10_threshold : ℕ
  pub sectors_to_25_threshold : ℕ
  pub rounds_to_first_error : ℕ
  pub rounds_to_0_1_threshold : ℕ
  pub rounds_to_1_threshold : ℕ
  pub rounds_to_10_threshold : ℕ
  pub rounds_to_25_threshold : ℕ
  pub stats_file_counters : StatsFileCounters
  pub screen_counters : ScreenCounters
  pub rng_state : RngState

pub record Context : Type 0 where
  pub device_info : DeviceInfo
  pub optimal_block_size_test_info : OptimalBlockSizeTestInfo
  pub capacity_test_info : CapacityTestInfo
  pub endurance_test_info : EnduranceTestInfo
  pub state_file_name : Option String
  pub log_file_name : Option String

-- -1ULL, the number of rounds to a milestone that has not been reached
abbrev pub unset : ℕ
unset = 2 ^ 64 - 1

abbrev pub zero_time : Timeval
zero_time = record { tv_sec = 0; tv_usec = 0 }

-- What `memset` and the assignments below it leave in `endurance_test_info`.
abbrev pub fresh_endurance : EnduranceTestInfo
fresh_endurance = record {
  test_started = false;
  current_phase = phase_unset;
  rounds_completed = 0;
  total_bad_sectors = 0;
  num_bad_sectors_this_round = 0;
  num_new_bad_sectors_this_round = 0;
  num_good_sectors_this_round = 0;
  sector_map = [];
  sectors_to_0_1_threshold = 0;
  sectors_to_1_threshold = 0;
  sectors_to_10_threshold = 0;
  sectors_to_25_threshold = 0;
  rounds_to_first_error = unset;
  rounds_to_0_1_threshold = unset;
  rounds_to_1_threshold = unset;
  rounds_to_10_threshold = unset;
  rounds_to_25_threshold = unset;
  stats_file_counters = record {
    total_bytes_written = 0;
    total_bytes_read = 0;
    last_update_time = zero_time;
    last_bytes_written = 0;
    last_bytes_read = 0;
    last_bad_sectors = 0;
  };
  screen_counters = record { last_update_time = zero_time; bytes_since_last_update = 0 };
  rng_state = record { initial_seed = 0; current_seed = 0; seeded = 0; drawn = 0 };
}

abbrev pub fresh_device : List ℕ → List ℕ → ℕ → DeviceInfo
fresh_device bod mod_data size = record {
  device_name = none;
  logical_size = 0;
  physical_size = 0;
  middle_of_device = 0;
  sector_size = 0;
  max_sectors_per_request = 0;
  num_logical_sectors = 0;
  num_physical_sectors = 0;
  device_num = 0;
  device_uuid = replicate 16 0;
  fd = none;
  optimal_block_size = 0;
  is_fake_flash = fake_flash_unknown;
  bod_buffer = bod;
  mod_buffer = mod_data;
  bod_mod_buffer_size = size;
}

-- `new_device_testing_context`. The first argument tells whether `malloc` gives the context, the
-- next two are what it gives for the buffers, with whatever they hold.
unfoldable pub new_device_testing_context :
    Bool → Option (List ℕ) → Option (List ℕ) → ℕ → Option Context
new_device_testing_context false bod mod_data size = none
new_device_testing_context true none mod_data size = none
new_device_testing_context true (some bod) none size = none
new_device_testing_context true (some bod) (some mod_data) size = some record {
  device_info = fresh_device bod mod_data size;
  optimal_block_size_test_info = record { test_performed = false; optimal_block_size = 0 };
  capacity_test_info = record {
    test_performed = false;
    is_fake_flash = fake_flash_unknown;
    device_size = 0;
    num_sectors = 0;
  };
  endurance_test_info = fresh_endurance;
  state_file_name = none;
  log_file_name = none;
}

-- `device_info_set_device_name`, with what `strdup` gives. The old name is freed in any case.
unfoldable pub device_info_set_device_name : Context → Option String → Bool × Context
device_info_set_device_name dtc none =
    (false, record dtc { device_info = record (dtc.device_info) { device_name = none } })
device_info_set_device_name dtc (some name) =
    (true, record dtc { device_info = record (dtc.device_info) { device_name = some name } })

-- `device_info_invalidate_file_handle`: the context with `fd` -1, and the handle that is closed.
unfoldable pub device_info_invalidate_file_handle : Context → Option ℕ × Context
device_info_invalidate_file_handle dtc =
    (dtc.device_info.fd, record dtc { device_info = record (dtc.device_info) { fd = none } })

unfoldable pub endurance_test_info_reset_per_round_counters : Context → Context
endurance_test_info_reset_per_round_counters dtc = record dtc {
  endurance_test_info = record (dtc.endurance_test_info) {
    num_new_bad_sectors_this_round = 0;
    num_bad_sectors_this_round = 0;
    num_good_sectors_this_round = 0;
  };
}

unfoldable pub device_info_delete_state_file_name : Context → Context
device_info_delete_state_file_name dtc = record dtc { state_file_name = none }
