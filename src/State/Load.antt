-- ===== src/State/Load.antt =====
-- `load_state` of state.c, from the file to the values that are stored. `*((uint64_t *) &version)`
-- is the low half of the number; what the other half overwrites is left out.
use Prim.Native.String.{String}
use mfst.Common.{
  Bool, true, false, ℕ, ◌/◌, ◌%◌, ◌^◌, true, false, Option, none, some, List, [], ◌∷◌,
  if◌then◌else◌,
}
use mfst.Context.{Context, EnduranceTestInfo, DeviceInfo}
use mfst.Device.{Errno, enoent}
use mfst.Options.{ProgramOptions}
use mfst.SectorMap.{with_map}
use mfst.State.Json.{Json, System}
use mfst.State.Pack.{unpack}
use mfst.State.Save.{Program, PerformanceTestInfo}
use mfst.State.Schema.{
  Pointer, all_props, path, version_ptr, device_uuid_ptr, reported_size_ptr, detected_size_ptr,
  sector_size_ptr, block_size_ptr, sequential_read_speed_ptr, sequential_write_speed_ptr,
  random_read_iops_ptr, random_write_iops_ptr, disable_curses_ptr, stats_file_ptr, log_file_ptr,
  lock_file_ptr, stats_interval_ptr, sector_map_ptr, bod_data_ptr, mod_data_ptr,
  rounds_completed_ptr, bytes_read_ptr, bytes_written_ptr, ffr_ptr, poptr_ptr, optr_ptr, tpfr_ptr,
  tfpfr_ptr,
}
use mfst.State.Validate.{Found, Stack, nothing_found, two_bits, is_null, validate, lengths_fit}

pub data LoadStateStatus : Type 0 where
  load_state_success load_state_file_not_specified : LoadStateStatus
  load_state_file_does_not_exist load_state_load_error : LoadStateStatus

-- What the last loop writes: the program, and the variables that stand for volatile ones.
pub record Loaded (J : Json) : Type 0 where
  pub program : Program J
  pub uuid_str : Option String
  pub tmp_num_rounds : ℕ
  pub tmp_bytes_read : ℕ
  pub tmp_bytes_written : ℕ
  pub version : ℕ

module _ {W : Type 0} (J : Json) (sys : System J W) where
  abbrev pub with_context : (Context → Context) → Program J → Program J
  with_context f p = record p { context = f p.context }

  abbrev pub with_device : (DeviceInfo → DeviceInfo) → Loaded J → Loaded J
  with_device f l = record l {
    program = with_context (λ c. record c { device_info = f c.device_info }) l.program;
  }

  abbrev pub with_endurance : (EnduranceTestInfo → EnduranceTestInfo) → Loaded J → Loaded J
  with_endurance f l = record l {
    program =
        with_context (λ c. record c { endurance_test_info = f c.endurance_test_info }) l.program;
  }

  abbrev pub with_performance :
      (PerformanceTestInfo (J.Real) → PerformanceTestInfo (J.Real)) → Loaded J → Loaded J
  with_performance f l = record l {
    program = record (l.program) { performance_test_info = f l.program.performance_test_info };
  }

  abbrev pub with_options : (ProgramOptions → ProgramOptions) → Loaded J → Loaded J
  with_options f l = record l {
    program = record (l.program) { program_options = f l.program.program_options };
  }

  -- The sector map that is allocated before the last loop, unpacked into.
  abbrev pub unpack_map : Found → Loaded J → Loaded J
  unpack_map found l =
      with_endurance
        (λ info. record info {
          sector_map =
              unpack (two_bits l.version) (found.detected_size / found.sector_size)
                (found.decoded sector_map_ptr) info.sector_map;
        })
        l

  -- A property that is present is written to its destination.
  unfoldable pub store : Found → Pointer → J.Object → Loaded J → Loaded J
  store found version_ptr obj l = record l { version = J.json_object_get_uint64 obj % 2 ^ 32 }
  store found device_uuid_ptr obj l = record l { uuid_str = found.strings device_uuid_ptr }
  store found reported_size_ptr obj l =
      with_device (λ d. record d { logical_size = J.json_object_get_uint64 obj }) l
  store found detected_size_ptr obj l =
      with_device (λ d. record d { physical_size = J.json_object_get_uint64 obj }) l
  store found sector_size_ptr obj l =
      with_device (λ d. record d { sector_size = J.json_object_get_int obj }) l
  store found block_size_ptr obj l =
      with_device (λ d. record d { optimal_block_size = J.json_object_get_int obj }) l
  store found sequential_read_speed_ptr obj l =
      with_performance (λ s. record s { sequential_read_speed = J.json_object_get_double obj }) l
  store found sequential_write_speed_ptr obj l =
      with_performance (λ s. record s { sequential_write_speed = J.json_object_get_double obj }) l
  store found random_read_iops_ptr obj l =
      with_performance (λ s. record s { random_read_iops = J.json_object_get_double obj }) l
  store found random_write_iops_ptr obj l =
      with_performance (λ s. record s { random_write_iops = J.json_object_get_double obj }) l
  store found disable_curses_ptr obj l =
      with_options (λ o. record o { no_curses = J.json_object_get_boolean obj }) l
  store found stats_file_ptr obj l =
      with_options (λ o. record o { stats_file = found.strings stats_file_ptr }) l
  store found log_file_ptr obj l =
      with_options (λ o. record o { log_file = found.strings log_file_ptr }) l
  store found lock_file_ptr obj l =
      with_options (λ o. record o { lock_file = found.strings lock_file_ptr }) l
  store found stats_interval_ptr obj l =
      with_options (λ o. record o { stats_interval = J.json_object_get_uint64 obj }) l
  store found sector_map_ptr obj l = unpack_map found l
  store found bod_data_ptr obj l =
      with_device (λ d. record d { bod_buffer = found.decoded bod_data_ptr }) l
  store found mod_data_ptr obj l =
      with_device (λ d. record d { mod_buffer = found.decoded mod_data_ptr }) l
  store found rounds_completed_ptr obj l = record l {
    tmp_num_rounds = J.json_object_get_uint64 obj;
  }
  store found bytes_read_ptr obj l = record l { tmp_bytes_read = J.json_object_get_uint64 obj }
  store found bytes_written_ptr obj l = record l {
    tmp_bytes_written = J.json_object_get_uint64 obj;
  }
  store found ffr_ptr obj l =
      with_endurance (λ i. record i { rounds_to_first_error = J.json_object_get_int64 obj }) l
  store found poptr_ptr obj l =
      with_endurance (λ i. record i { rounds_to_0_1_threshold = J.json_object_get_uint64 obj }) l
  store found optr_ptr obj l =
      with_endurance (λ i. record i { rounds_to_1_threshold = J.json_object_get_uint64 obj }) l
  store found tpfr_ptr obj l =
      with_endurance (λ i. record i { rounds_to_10_threshold = J.json_object_get_int64 obj }) l
  store found tfpfr_ptr obj l =
      with_endurance (λ i. record i { rounds_to_25_threshold = J.json_object_get_int64 obj }) l

  abbrev pub store_present : Found → Pointer → Option (J.Object) → Loaded J → Loaded J
  store_present found p none l = l
  store_present found p (some obj) l =
      if is_null (J.json_object_get_type obj) then l else store found p obj l

  -- The last loop.
  unfoldable pub populate : J.Object → Found → List Pointer → Loaded J → Loaded J
  populate root found [] l = l
  populate root found (p ∷ ps) l =
      populate root found ps (store_present found p (J.json_pointer_get root (path p)) l)

  -- `uuid_parse` leaves the UUID as it was when the string is none.
  abbrev pub set_parsed : Option (List ℕ) → DeviceInfo → DeviceInfo
  set_parsed none d = d
  set_parsed (some uuid) d = record d { device_uuid = uuid }

  abbrev pub set_uuid : Option String → DeviceInfo → DeviceInfo
  set_uuid none d = d
  set_uuid (some uuid_str) d = set_parsed (sys.uuid_parse uuid_str) d

  -- What follows the last loop.
  unfoldable pub finish : Loaded J → Program J
  finish l =
      with_context
        (λ c. record c {
          device_info = set_uuid l.uuid_str c.device_info;
          endurance_test_info = record (c.endurance_test_info) {
            rounds_completed = l.tmp_num_rounds;
            stats_file_counters = record (c.endurance_test_info.stats_file_counters) {
              total_bytes_read = l.tmp_bytes_read;
              total_bytes_written = l.tmp_bytes_written;
            };
          };
        })
        l.program

  -- From `malloc`, whose result is given, to the end.
  unfoldable pub load_values :
      J.Object → Found → Option (List ℕ) → Program J → LoadStateStatus × Program J
  load_values root found none p = (load_state_load_error, with_context (λ c. with_map c []) p)
  load_values root found (some m) p = (
    load_state_success,
    finish (
        populate root found all_props record {
          program = with_context (λ c. with_map c m) p;
          uuid_str = none;
          tmp_num_rounds = 0;
          tmp_bytes_read = 0;
          tmp_bytes_written = 0;
          version = found.version;
        }),
  )

  -- What follows the check of the lengths.
  abbrev pub load_checked : W → J.Object → Found → Bool → Program J → LoadStateStatus × Program J
  load_checked w root found false p = (load_state_load_error, p)
  load_checked w root found true p =
      load_values root found (sys.malloc w (found.detected_size / found.sector_size)) p

  -- What follows the validation.
  abbrev pub load_found : W → J.Object → Option Found → Program J → LoadStateStatus × Program J
  load_found w root none p = (load_state_load_error, p)
  load_found w root (some found) p = load_checked w root found (lengths_fit found all_props) p

  -- The program, when `json_object_from_file` has given `root`.
  unfoldable pub load_root : W → Stack → J.Object → Program J → LoadStateStatus × Program J
  load_root w stack root p =
      load_found w root (validate J sys w root all_props (nothing_found stack)) p

  abbrev pub stat_status : Errno → LoadStateStatus
  stat_status enoent = load_state_file_does_not_exist
  stat_status _ = load_state_load_error

  abbrev pub load_file : W → Stack → Option (J.Object) → Program J → LoadStateStatus × Program J
  load_file w stack none p = (load_state_load_error, p)
  load_file w stack (some root) p = load_root w stack root p

  -- The file, with what `stat` says of it.
  abbrev pub load_named :
      W → Stack → String → Option Errno → Program J → LoadStateStatus × Program J
  load_named w stack state_file (some errno) p = (stat_status errno, p)
  load_named w stack state_file none p =
      load_file w stack (sys.json_object_from_file w state_file) p

  abbrev pub load_from : W → Stack → Option String → Program J → LoadStateStatus × Program J
  load_from w stack none p = (load_state_file_not_specified, p)
  load_from w stack (some state_file) p = load_named w stack state_file (sys.stat w state_file) p

  unfoldable pub load_state : W → Stack → Program J → LoadStateStatus × Program J
  load_state w stack p = load_from w stack p.program_options.state_file p
