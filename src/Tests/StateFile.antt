-- ===== src/Tests/StateFile.antt =====
-- The state file.
use mfst.Common.{
  ℕ, ◌≡◌, ◌≢◌, refl, arith, true, false, Option, none, some, List, [], ◌∷◌, length, replicate,
  get_or, length-replicate, ◌⊎◌, inl, inr,
}
use mfst.Context.{Context}
use mfst.Options.{ProgramOptions, default_options}
use mfst.SectorMap.{with_map, has_flag, failed, do_not_use, failed_this_round}
use mfst.State.Content.{content}
use mfst.State.Errors.{load_state-error}
use mfst.State.Flags.{unpack-pack_flags}
use mfst.State.Load.{load_state, load_state_success, with_context}
use mfst.State.Noted.{IsLoadable}
use mfst.State.Pack.{pack, pack_from, pack_byte, unpack}
use mfst.State.Restoring.{IsSized, restored}
use mfst.State.RoundTrip.{load_state-save_state}
use mfst.State.Save.{Program, save_state, state_root, add_all, add_parent, write_state}
use mfst.State.Saved.{Atomic, save_state-Atomic}
use mfst.State.Schema.{path, ffr_ptr}
use mfst.State.Validate.{Stack, bod_mod_buffer_size}
use mfst.State.Written.{state_root-content}
use mfst.Tests.{test_context}
use mfst.Tests.Files.{
  test_json, test_json-lawful, test_system, test_files-lawful, test_system-Works, Value, empty,
  member, number,
}

-- A buffer as large as the copies of the device
unfoldable big_buffer : ℕ → List ℕ
big_buffer a = replicate bod_mod_buffer_size a

length-big_buffer : (a : ℕ) → length (big_buffer a) ≡ bod_mod_buffer_size
unfolding big_buffer
length-big_buffer a = length-replicate {0} bod_mod_buffer_size a

abbrev test_options : ProgramOptions
test_options = record default_options {
  state_file = some "state";
  lock_file = some "lock";
  stats_file = some "stats";
}

-- Four sectors after the first round; the third has failed, the fourth is unusable.
abbrev saved_context : Context
saved_context = record test_context {
  device_info = record (test_context.device_info) {
    logical_size = 4096;
    physical_size = 2048;
    bod_buffer = big_buffer 1;
    mod_buffer = big_buffer 2;
  };
  endurance_test_info = record (test_context.endurance_test_info) {
    rounds_completed = 1;
    rounds_to_first_error = 1;
    stats_file_counters = record (test_context.endurance_test_info.stats_file_counters) {
      total_bytes_read = 2048;
      total_bytes_written = 2048;
    };
  };
}

abbrev saved_program : Program test_json
saved_program = record {
  context = saved_context;
  performance_test_info = record {
    sequential_read_speed = 4;
    sequential_write_speed = 3;
    random_read_iops = 2;
    random_write_iops = 1;
  };
  program_options = test_options;
}

-- The program that loads it
abbrev new_program : Program test_json
new_program = record saved_program { context = test_context }

saved_program-IsLoadable : IsLoadable test_json saved_program
saved_program-IsLoadable = record {
  logical_size = (omega arith, omega arith);
  physical_size = (omega arith, omega arith);
  sector_size = (omega arith, omega arith);
  block_size = (omega arith, omega arith);
  read_speed = refl;
  write_speed = refl;
  read_iops = refl;
  write_iops = refl;
  stats_interval = (omega arith, omega arith);
  rounds_completed = (omega arith, omega arith);
  bytes_read = (omega arith, omega arith);
  bytes_written = (omega arith, omega arith);
  first_error = inr (omega arith, omega arith);
  threshold_0_1 = inl refl;
  threshold_1 = inl refl;
  threshold_10 = inl refl;
  threshold_25 = inl refl;
}

saved_program-IsSized : IsSized test_json saved_program
saved_program-IsSized = record {
  sectors = refl;
  sector_map = refl;
  bod_buffer = length-big_buffer 1;
  mod_buffer = length-big_buffer 2;
  device_uuid = refl;
}

abbrev no_stack : Stack
no_stack = (0, 0)

saved : (save_state test_json test_system saved_program []).0 ≡ true
unfolding save_state state_root add_all add_parent write_state
saved = refl

load_state-save_state_example :
    load_state test_json test_system
      (save_state test_json test_system saved_program []).1
      no_stack
      new_program
    ≡ (load_state_success, restored test_json test_system [] saved_program new_program)
load_state-save_state_example =
    load_state-save_state test_json test_system test_json-lawful test_files-lawful saved_program
      new_program [] "state" no_stack refl refl saved_program-IsLoadable saved_program-IsSized
      (test_system-Works (save_state test_json test_system saved_program []).1) saved

save_state-Atomic_example :
    Atomic test_json test_system test_files-lawful saved_program [] "state"
      (save_state test_json test_system saved_program [])
save_state-Atomic_example =
    save_state-Atomic test_json test_system test_files-lawful saved_program [] "state" refl

abbrev or_empty : Option Value → Value
or_empty none = empty
or_empty (some v) = v

abbrev saved_root : Value
saved_root = or_empty (state_root test_json test_system [] saved_program)

saved_root-made : state_root test_json test_system [] saved_program ≡ some saved_root
unfolding state_root add_all add_parent
saved_root-made = refl

state_root-content_example :
    test_json.json_pointer_get saved_root (path ffr_ptr)
    ≡ content test_json test_system [] saved_program ffr_ptr
state_root-content_example =
    state_root-content test_json test_system test_json-lawful [] saved_program saved_root
      saved_root-made ffr_ptr

-- Five sectors, of which the second and the fourth have failed, the third and the fourth are unusable.
abbrev five_sectors : List ℕ
five_sectors = 0 ∷ 1 ∷ 16 ∷ 17 ∷ 6 ∷ []

five_packed : pack five_sectors 5 ≡ 27 ∷ 0 ∷ []
unfolding pack pack_from pack_byte
five_packed = refl

unpack-pack_flags_example :
    (has_flag failed (get_or (unpack true 5 (pack five_sectors 5) (replicate 5 0)) 3 0)
      ≡ has_flag failed 17)
    × ((has_flag failed_this_round
            (get_or (unpack true 5 (pack five_sectors 5) (replicate 5 0)) 3 0)
          ≡ has_flag do_not_use 17)
        × (has_flag do_not_use (get_or (unpack true 5 (pack five_sectors 5) (replicate 5 0)) 3 0)
            ≡ false))
unpack-pack_flags_example = unpack-pack_flags five_sectors (replicate 5 0) 5 3 refl (omega arith)

-- A file from the time before the first round is complete.
abbrev round_0 : Value
round_0 = member "state" (member "rounds_completed" (number 0) empty) empty

no_file : (load_state test_json test_system [] no_stack new_program).0 ≢ load_state_success
unfolding load_state
no_file e = cc e

load_state-error_example :
    ((load_state test_json test_system [] no_stack new_program).1 ≡ new_program)
    ⊎ ((load_state test_json test_system [] no_stack new_program).1
        ≡ with_context test_json test_system (λ c. with_map c []) new_program)
load_state-error_example = load_state-error test_json test_system [] no_stack new_program no_file
