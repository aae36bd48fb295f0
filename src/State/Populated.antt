-- ===== src/State/Populated.antt =====
-- The last loop of load_state stores the values of the table.
use Prim.Native.String.{String}
use mfst.Common.{inl, inr, ℕ, ◌%◌, ◌^◌, ◌≡◌, refl, ap, ◌∙◌, arith, Option, none, some}
use mfst.State.Content.{content, map_some, real_path}
use mfst.State.Json.{Json, System, json_type_int, json_type_string, json_type_boolean}
use mfst.State.Laws.{JsonIsLawful}
use mfst.State.Lookup.{or_else}
use mfst.State.Save.{Program}
use mfst.State.Schema.{
  Pointer, all_props, version_ptr, device_uuid_ptr, reported_size_ptr, detected_size_ptr,
  sector_size_ptr, block_size_ptr, sequential_read_speed_ptr, sequential_write_speed_ptr,
  random_read_iops_ptr, random_write_iops_ptr, disable_curses_ptr, stats_file_ptr, log_file_ptr,
  lock_file_ptr, stats_interval_ptr, sector_map_ptr, bod_data_ptr, mod_data_ptr,
  rounds_completed_ptr, bytes_read_ptr, bytes_written_ptr, ffr_ptr, poptr_ptr, optr_ptr, tpfr_ptr,
  tfpfr_ptr,
}
use mfst.State.Validate.{Stack, Found}
use mfst.State.Noted.{fold_with, IsLoadable}
use mfst.State.Load.{
  Loaded, with_device, with_endurance, with_options, with_performance, store, store_present,
  populate,
}
use mfst.State.Save.{state_root}
use mfst.State.Written.{state_root-content, map_encoded, bod_encoded, mod_encoded}
use mfst.State.Stored.{
  interval_of, all_noted, uuid_noted, stats_noted, log_noted, lock_noted, stored,
}
use mfst.State.Present.{
  populate-fold, present, present-int, present-uint64, present-round, present-double, present-name,
  present-Milestone,
}

module _ {W : Type 0} (J : Json) (sys : System J W) (laws : JsonIsLawful J) (v : W) (p : Program J)
    (loadable : IsLoadable J p) (root : J.Object) (e : state_root J sys v p ≡ some root)
    (stack : Stack) where
  abbrev found : Found
  found = all_noted J sys v p stack

  store-content :
      (q : Pointer) (l : Loaded J)
      → store_present J sys found q (content J sys v p q) l ≡ stored J sys v p stack q l
  unfolding store
  store-content version_ptr l =
      present J sys laws found version_ptr (J.json_object_new_int 2) l json_type_int
        (laws.type-int 2) refl
      ∙ ap (λ n. record l { version = n % 2 ^ 32 }) (laws.get_uint64-int 2 (omega arith))
  store-content device_uuid_ptr l =
      let s = sys.uuid_unparse p.context.device_info.device_uuid in
      present J sys laws found device_uuid_ptr (J.json_object_new_string s) l json_type_string
        (laws.type-string s) refl
      ∙ ap (λ s. record l { uuid_str = s }) (uuid_noted J sys v p stack)
  store-content reported_size_ptr l =
      present-uint64 J sys laws found reported_size_ptr p.context.device_info.logical_size l
        (λ n. with_device J sys (λ d. record d { logical_size = n }) l) (loadable.logical_size.1)
        refl
  store-content detected_size_ptr l =
      present-uint64 J sys laws found detected_size_ptr p.context.device_info.physical_size l
        (λ n. with_device J sys (λ d. record d { physical_size = n }) l) (loadable.physical_size.1)
        refl
  store-content sector_size_ptr l =
      present-int J sys laws found sector_size_ptr p.context.device_info.sector_size l
        (λ n. with_device J sys (λ d. record d { sector_size = n }) l) (loadable.sector_size.1) refl
  store-content block_size_ptr l =
      present-int J sys laws found block_size_ptr p.context.device_info.optimal_block_size l
        (λ n. with_device J sys (λ d. record d { optimal_block_size = n }) l)
        (loadable.block_size.1) refl
  store-content sequential_read_speed_ptr l =
      present-double J sys laws found sequential_read_speed_ptr
        p.performance_test_info.sequential_read_speed l
        (λ r. with_performance J sys (λ s. record s { sequential_read_speed = r }) l) refl
  store-content sequential_write_speed_ptr l =
      present-double J sys laws found sequential_write_speed_ptr
        p.performance_test_info.sequential_write_speed l
        (λ r. with_performance J sys (λ s. record s { sequential_write_speed = r }) l) refl
  store-content random_read_iops_ptr l =
      present-double J sys laws found random_read_iops_ptr p.performance_test_info.random_read_iops
        l (λ r. with_performance J sys (λ s. record s { random_read_iops = r }) l) refl
  store-content random_write_iops_ptr l =
      present-double J sys laws found random_write_iops_ptr
        p.performance_test_info.random_write_iops l
        (λ r. with_performance J sys (λ s. record s { random_write_iops = r }) l) refl
  store-content disable_curses_ptr l =
      let b = p.program_options.orig_no_curses in
      present J sys laws found disable_curses_ptr (J.json_object_new_boolean b) l json_type_boolean
        (laws.type-boolean b) refl
      ∙ ap (λ b. with_options J sys (λ o. record o { no_curses = b }) l)
          (laws.get_boolean-boolean b)
  store-content stats_file_ptr l =
      present-name J sys laws found stats_file_ptr (real_path J sys v p.program_options.stats_file)
        l (λ x. with_options J sys (λ o. record o { stats_file = x }) l)
        (λ x. with_options J sys (λ o. record o { stats_file = or_else x o.stats_file }) l)
        (stats_noted J sys v p stack) refl (λ s. refl) (λ s. refl)
  store-content log_file_ptr l =
      present-name J sys laws found log_file_ptr (real_path J sys v p.program_options.log_file) l
        (λ x. with_options J sys (λ o. record o { log_file = x }) l)
        (λ x. with_options J sys (λ o. record o { log_file = or_else x o.log_file }) l)
        (log_noted J sys v p stack) refl (λ s. refl) (λ s. refl)
  store-content lock_file_ptr l =
      present-name J sys laws found lock_file_ptr (real_path J sys v p.program_options.lock_file) l
        (λ x. with_options J sys (λ o. record o { lock_file = x }) l)
        (λ x. with_options J sys (λ o. record o { lock_file = or_else x o.lock_file }) l)
        (lock_noted J sys v p stack) refl (λ s. refl) (λ s. refl)
  store-content stats_interval_ptr l = interval p.program_options.stats_file
    where
      n : ℕ
      n = p.program_options.stats_interval

      interval :
          (o : Option String)
          → store_present J sys found stats_interval_ptr
              (map_some (λ name. J.json_object_new_uint64 n) o)
              l
            ≡ with_options J sys
                (λ x. record x { stats_interval = interval_of o n x.stats_interval })
                l
      interval none = refl
      interval (some name) =
          present-uint64 J sys laws found stats_interval_ptr n l
            (λ n. with_options J sys (λ o. record o { stats_interval = n }) l)
            (loadable.stats_interval.1) refl
  store-content sector_map_ptr l =
      let s = map_encoded J sys laws v p root e in
      ap (λ o. store_present J sys found sector_map_ptr (map_some J.json_object_new_string o) l)
        (s.1)
      ∙ present J sys laws found sector_map_ptr (J.json_object_new_string (s.0)) l json_type_string
          (laws.type-string (s.0)) refl
  store-content bod_data_ptr l =
      let s = bod_encoded J sys laws v p root e in
      ap (λ o. store_present J sys found bod_data_ptr (map_some J.json_object_new_string o) l) (s.1)
      ∙ present J sys laws found bod_data_ptr (J.json_object_new_string (s.0)) l json_type_string
          (laws.type-string (s.0)) refl
  store-content mod_data_ptr l =
      let s = mod_encoded J sys laws v p root e in
      ap (λ o. store_present J sys found mod_data_ptr (map_some J.json_object_new_string o) l) (s.1)
      ∙ present J sys laws found mod_data_ptr (J.json_object_new_string (s.0)) l json_type_string
          (laws.type-string (s.0)) refl
  store-content rounds_completed_ptr l =
      present-round J sys laws found rounds_completed_ptr
        p.context.endurance_test_info.rounds_completed l (λ n. record l { tmp_num_rounds = n })
        (loadable.rounds_completed.1) (inl refl)
  store-content bytes_read_ptr l =
      present-uint64 J sys laws found bytes_read_ptr
        p.context.endurance_test_info.stats_file_counters.total_bytes_read l
        (λ n. record l { tmp_bytes_read = n }) (loadable.bytes_read.1) refl
  store-content bytes_written_ptr l =
      present-uint64 J sys laws found bytes_written_ptr
        p.context.endurance_test_info.stats_file_counters.total_bytes_written l
        (λ n. record l { tmp_bytes_written = n }) (loadable.bytes_written.1) refl
  store-content ffr_ptr l =
      present-Milestone J sys laws found ffr_ptr p.context.endurance_test_info.rounds_to_first_error
        l.program.context.endurance_test_info.rounds_to_first_error v l
        (λ n. with_endurance J sys (λ i. record i { rounds_to_first_error = n }) l)
        loadable.first_error refl (inr refl)
  store-content poptr_ptr l =
      present-Milestone J sys laws found poptr_ptr
        p.context.endurance_test_info.rounds_to_0_1_threshold
        l.program.context.endurance_test_info.rounds_to_0_1_threshold v l
        (λ n. with_endurance J sys (λ i. record i { rounds_to_0_1_threshold = n }) l)
        loadable.threshold_0_1 refl (inl refl)
  store-content optr_ptr l =
      present-Milestone J sys laws found optr_ptr
        p.context.endurance_test_info.rounds_to_1_threshold
        l.program.context.endurance_test_info.rounds_to_1_threshold v l
        (λ n. with_endurance J sys (λ i. record i { rounds_to_1_threshold = n }) l)
        loadable.threshold_1 refl (inl refl)
  store-content tpfr_ptr l =
      present-Milestone J sys laws found tpfr_ptr
        p.context.endurance_test_info.rounds_to_10_threshold
        l.program.context.endurance_test_info.rounds_to_10_threshold v l
        (λ n. with_endurance J sys (λ i. record i { rounds_to_10_threshold = n }) l)
        loadable.threshold_10 refl (inr refl)
  store-content tfpfr_ptr l =
      present-Milestone J sys laws found tfpfr_ptr
        p.context.endurance_test_info.rounds_to_25_threshold
        l.program.context.endurance_test_info.rounds_to_25_threshold v l
        (λ n. with_endurance J sys (λ i. record i { rounds_to_25_threshold = n }) l)
        loadable.threshold_25 refl (inr refl)

  pub populate-content :
      (l : Loaded J)
      → populate J sys root found all_props l ≡ fold_with (stored J sys v p stack) all_props l
  populate-content l =
      populate-fold J sys laws root found (stored J sys v p stack)
        (λ q l.
          ap (λ o. store_present J sys found q o l) (state_root-content J sys laws v p root e q)
          ∙ store-content q l)
        all_props l
