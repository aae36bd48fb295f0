-- ===== src/State/Passes.antt =====
-- The validation of the JSON that save_state wrote succeeds, with the notes of the table.
use Prim.Native.String.{String}
use mfst.Common.{ℕ, ◌≡◌, refl, ap, ◌∙◌, arith, Option, none, some}
use mfst.State.Content.{content, map_some, real_path, map_bytes}
use mfst.State.Json.{Json, System, json_type_boolean}
use mfst.State.Laws.{JsonIsLawful}
use mfst.State.Save.{Program}
use mfst.State.Schema.{
  Pointer, all_props, version_ptr, device_uuid_ptr, reported_size_ptr, detected_size_ptr,
  sector_size_ptr, block_size_ptr, sequential_read_speed_ptr, sequential_write_speed_ptr,
  random_read_iops_ptr, random_write_iops_ptr, disable_curses_ptr, stats_file_ptr, log_file_ptr,
  lock_file_ptr, stats_interval_ptr, sector_map_ptr, bod_data_ptr, mod_data_ptr,
  rounds_completed_ptr, bytes_read_ptr, bytes_written_ptr, ffr_ptr, poptr_ptr, optr_ptr, tpfr_ptr,
  tfpfr_ptr,
}
use mfst.State.Validate.{Found, check_prop, check_typed, validate}
use mfst.State.Noted.{fold_with, IsLoadable, Works, noted}
use mfst.State.Checked.{
  validate-fold, check-int, check-double, check-Milestone, check-base64, check-optional,
}
use mfst.State.Save.{state_root}
use mfst.State.Written.{state_root-content, map_encoded, bod_encoded, mod_encoded}

module _ {W : Type 0} (J : Json) (sys : System J W) (laws : JsonIsLawful J) (w : W)
    (works : Works J sys w) (v : W) (p : Program J) (loadable : IsLoadable J p) (root : J.Object)
    (e : state_root J sys v p ≡ some root) where
  check-content :
      (q : Pointer) (found : Found)
      → check_prop J sys w q (content J sys v p q) found ≡ some (noted J sys v p q found)
  check-content version_ptr found =
      check-int J sys laws w version_ptr (J.json_object_new_int 2) 2 found refl (laws.type-int 2)
        (laws.get_uint64-int 2 (omega arith)) (omega arith)
      ∙ ap (λ n. some (record found { version = n })) (laws.get_int-int 2 (omega arith))
  check-content device_uuid_ptr found =
      check-optional J sys laws w works v device_uuid_ptr
        (some (sys.uuid_unparse p.context.device_info.device_uuid)) found refl refl refl
  check-content reported_size_ptr found =
      check-int J sys laws w reported_size_ptr
        (J.json_object_new_uint64 p.context.device_info.logical_size)
        p.context.device_info.logical_size found refl
        (laws.type-uint64 p.context.device_info.logical_size)
        (laws.get_uint64-uint64 p.context.device_info.logical_size (loadable.logical_size.1))
        (loadable.logical_size.0)
  check-content detected_size_ptr found =
      check-int J sys laws w detected_size_ptr
        (J.json_object_new_uint64 p.context.device_info.physical_size)
        p.context.device_info.physical_size found refl
        (laws.type-uint64 p.context.device_info.physical_size)
        (laws.get_uint64-uint64 p.context.device_info.physical_size (loadable.physical_size.1))
        (loadable.physical_size.0)
      ∙ ap (λ n. some (record found { detected_size = n }))
          (laws.get_uint64-uint64 p.context.device_info.physical_size (loadable.physical_size.1))
  check-content sector_size_ptr found =
      check-int J sys laws w sector_size_ptr
        (J.json_object_new_int p.context.device_info.sector_size) p.context.device_info.sector_size
        found refl (laws.type-int p.context.device_info.sector_size)
        (laws.get_uint64-int p.context.device_info.sector_size (loadable.sector_size.1))
        (loadable.sector_size.0)
      ∙ ap (λ n. some (record found { sector_size = n }))
          (laws.get_uint64-int p.context.device_info.sector_size (loadable.sector_size.1))
  check-content block_size_ptr found =
      check-int J sys laws w block_size_ptr
        (J.json_object_new_int p.context.device_info.optimal_block_size)
        p.context.device_info.optimal_block_size found refl
        (laws.type-int p.context.device_info.optimal_block_size)
        (laws.get_uint64-int p.context.device_info.optimal_block_size (loadable.block_size.1))
        (loadable.block_size.0)
  check-content sequential_read_speed_ptr found =
      check-double J sys laws w sequential_read_speed_ptr
        p.performance_test_info.sequential_read_speed found refl loadable.read_speed
  check-content sequential_write_speed_ptr found =
      check-double J sys laws w sequential_write_speed_ptr
        p.performance_test_info.sequential_write_speed found refl loadable.write_speed
  check-content random_read_iops_ptr found =
      check-double J sys laws w random_read_iops_ptr p.performance_test_info.random_read_iops found
        refl loadable.read_iops
  check-content random_write_iops_ptr found =
      check-double J sys laws w random_write_iops_ptr p.performance_test_info.random_write_iops
        found refl loadable.write_iops
  check-content disable_curses_ptr found =
      ap
        (λ t.
          check_typed J sys w disable_curses_ptr json_type_boolean t
            (J.json_object_new_boolean p.program_options.orig_no_curses) found)
        (laws.type-boolean p.program_options.orig_no_curses)
  check-content stats_file_ptr found =
      check-optional J sys laws w works v stats_file_ptr
        (real_path J sys v p.program_options.stats_file) found refl refl refl
  check-content log_file_ptr found =
      check-optional J sys laws w works v log_file_ptr
        (real_path J sys v p.program_options.log_file) found refl refl refl
  check-content lock_file_ptr found =
      check-optional J sys laws w works v lock_file_ptr
        (real_path J sys v p.program_options.lock_file) found refl refl refl
  check-content stats_interval_ptr found = interval p.program_options.stats_file
    where
      n : ℕ
      n = p.program_options.stats_interval

      interval :
          (o : Option String)
          → check_prop J sys w stats_interval_ptr
              (map_some (λ name. J.json_object_new_uint64 n) o)
              found
            ≡ some found
      interval none = refl
      interval (some name) =
          check-int J sys laws w stats_interval_ptr (J.json_object_new_uint64 n) n found refl
            (laws.type-uint64 n) (laws.get_uint64-uint64 n (loadable.stats_interval.1))
            (loadable.stats_interval.0)
  check-content sector_map_ptr found =
      check-base64 J sys laws w works v sector_map_ptr (map_bytes J sys v p) found refl refl
        (map_encoded J sys laws v p root e)
  check-content bod_data_ptr found =
      check-base64 J sys laws w works v bod_data_ptr p.context.device_info.bod_buffer found refl
        refl (bod_encoded J sys laws v p root e)
  check-content mod_data_ptr found =
      check-base64 J sys laws w works v mod_data_ptr p.context.device_info.mod_buffer found refl
        refl (mod_encoded J sys laws v p root e)
  check-content rounds_completed_ptr found =
      check-int J sys laws w rounds_completed_ptr
        (J.json_object_new_int64 p.context.endurance_test_info.rounds_completed)
        p.context.endurance_test_info.rounds_completed found refl
        (laws.type-int64 p.context.endurance_test_info.rounds_completed)
        (laws.get_uint64-int64 p.context.endurance_test_info.rounds_completed
          (loadable.rounds_completed.1))
        (loadable.rounds_completed.0)
  check-content bytes_read_ptr found =
      check-int J sys laws w bytes_read_ptr
        (J.json_object_new_uint64
          p.context.endurance_test_info.stats_file_counters.total_bytes_read)
        p.context.endurance_test_info.stats_file_counters.total_bytes_read found refl
        (laws.type-uint64 p.context.endurance_test_info.stats_file_counters.total_bytes_read)
        (laws.get_uint64-uint64 p.context.endurance_test_info.stats_file_counters.total_bytes_read
          (loadable.bytes_read.1))
        (loadable.bytes_read.0)
  check-content bytes_written_ptr found =
      check-int J sys laws w bytes_written_ptr
        (J.json_object_new_uint64
          p.context.endurance_test_info.stats_file_counters.total_bytes_written)
        p.context.endurance_test_info.stats_file_counters.total_bytes_written found refl
        (laws.type-uint64 p.context.endurance_test_info.stats_file_counters.total_bytes_written)
        (laws.get_uint64-uint64
          p.context.endurance_test_info.stats_file_counters.total_bytes_written
          (loadable.bytes_written.1))
        (loadable.bytes_written.0)
  check-content ffr_ptr found =
      check-Milestone J sys laws w ffr_ptr p.context.endurance_test_info.rounds_to_first_error found
        refl refl (λ obj. refl) loadable.first_error
  check-content poptr_ptr found =
      check-Milestone J sys laws w poptr_ptr p.context.endurance_test_info.rounds_to_0_1_threshold
        found refl refl (λ obj. refl) loadable.threshold_0_1
  check-content optr_ptr found =
      check-Milestone J sys laws w optr_ptr p.context.endurance_test_info.rounds_to_1_threshold
        found refl refl (λ obj. refl) loadable.threshold_1
  check-content tpfr_ptr found =
      check-Milestone J sys laws w tpfr_ptr p.context.endurance_test_info.rounds_to_10_threshold
        found refl refl (λ obj. refl) loadable.threshold_10
  check-content tfpfr_ptr found =
      check-Milestone J sys laws w tfpfr_ptr p.context.endurance_test_info.rounds_to_25_threshold
        found refl refl (λ obj. refl) loadable.threshold_25

  pub validate-content :
      (found : Found)
      → validate J sys w root all_props found ≡ some (fold_with (noted J sys v p) all_props found)
  validate-content found =
      validate-fold J sys laws w root (noted J sys v p)
        (λ q found.
          ap (λ o. check_prop J sys w q o found) (state_root-content J sys laws v p root e q)
          ∙ check-content q found)
        all_props found
