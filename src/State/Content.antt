-- ===== src/State/Content.antt =====
-- The JSON that save_state writes, property by property.
use Prim.Native.String.{String}
use mfst.Common.{ℕ, Option, none, some, List, and_then, if◌then◌else◌}
use mfst.Common.{◌==◌ as same}
use mfst.Context.{unset}
use mfst.State.Json.{Json, System}
use mfst.State.Pack.{pack}
use mfst.State.Save.{Program}
use mfst.State.Schema.{
  Pointer, version_ptr, device_uuid_ptr, reported_size_ptr, detected_size_ptr, sector_size_ptr,
  block_size_ptr, sequential_read_speed_ptr, sequential_write_speed_ptr, random_read_iops_ptr,
  random_write_iops_ptr, disable_curses_ptr, stats_file_ptr, log_file_ptr, lock_file_ptr,
  stats_interval_ptr, sector_map_ptr, bod_data_ptr, mod_data_ptr, rounds_completed_ptr,
  bytes_read_ptr, bytes_written_ptr, ffr_ptr, poptr_ptr, optr_ptr, tpfr_ptr, tfpfr_ptr,
}

abbrev pub map_some : {A B : Type 0} → (A → B) → Option A → Option B
map_some f none = none
map_some f (some a) = some (f a)

module _ {W : Type 0} (J : Json) (sys : System J W) (w : W) where
  -- The real path of a file that is given.
  abbrev pub real_path : Option String → Option String
  real_path name = and_then name (sys.realpath w)

  -- A milestone that has been reached.
  abbrev pub reached : ℕ → Option (J.Object)
  reached rounds = if same rounds unset then none else some (J.json_object_new_int64 rounds)

  -- The packed sector map and the two buffers.
  abbrev pub map_bytes : Program J → List ℕ
  map_bytes p =
      pack p.context.endurance_test_info.sector_map p.context.device_info.num_physical_sectors

  abbrev pub content : Program J → Pointer → Option (J.Object)
  content p version_ptr = some (J.json_object_new_int 2)
  content p device_uuid_ptr =
      some (J.json_object_new_string (sys.uuid_unparse p.context.device_info.device_uuid))
  content p reported_size_ptr = some (J.json_object_new_uint64 p.context.device_info.logical_size)
  content p detected_size_ptr = some (J.json_object_new_uint64 p.context.device_info.physical_size)
  content p sector_size_ptr = some (J.json_object_new_int p.context.device_info.sector_size)
  content p block_size_ptr = some (J.json_object_new_int p.context.device_info.optimal_block_size)
  content p sequential_read_speed_ptr =
      some (J.json_object_new_double p.performance_test_info.sequential_read_speed)
  content p sequential_write_speed_ptr =
      some (J.json_object_new_double p.performance_test_info.sequential_write_speed)
  content p random_read_iops_ptr =
      some (J.json_object_new_double p.performance_test_info.random_read_iops)
  content p random_write_iops_ptr =
      some (J.json_object_new_double p.performance_test_info.random_write_iops)
  content p disable_curses_ptr = some (J.json_object_new_boolean p.program_options.orig_no_curses)
  content p stats_file_ptr =
      map_some J.json_object_new_string (real_path p.program_options.stats_file)
  content p log_file_ptr = map_some J.json_object_new_string (real_path p.program_options.log_file)
  content p lock_file_ptr =
      map_some J.json_object_new_string (real_path p.program_options.lock_file)
  content p stats_interval_ptr =
      map_some (λ name. J.json_object_new_uint64 p.program_options.stats_interval)
        p.program_options.stats_file
  content p sector_map_ptr = map_some J.json_object_new_string (sys.base64_encode w (map_bytes p))
  content p bod_data_ptr =
      map_some J.json_object_new_string (sys.base64_encode w p.context.device_info.bod_buffer)
  content p mod_data_ptr =
      map_some J.json_object_new_string (sys.base64_encode w p.context.device_info.mod_buffer)
  content p rounds_completed_ptr =
      some (J.json_object_new_int64 p.context.endurance_test_info.rounds_completed)
  content p bytes_read_ptr =
      some (
        J.json_object_new_uint64 p.context.endurance_test_info.stats_file_counters.total_bytes_read)
  content p bytes_written_ptr = some (
      J.json_object_new_uint64
        p.context.endurance_test_info.stats_file_counters.total_bytes_written)
  content p ffr_ptr = reached p.context.endurance_test_info.rounds_to_first_error
  content p poptr_ptr = reached p.context.endurance_test_info.rounds_to_0_1_threshold
  content p optr_ptr = reached p.context.endurance_test_info.rounds_to_1_threshold
  content p tpfr_ptr = reached p.context.endurance_test_info.rounds_to_10_threshold
  content p tfpfr_ptr = reached p.context.endurance_test_info.rounds_to_25_threshold
