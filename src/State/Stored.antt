-- ===== src/State/Stored.antt =====
-- What the last loop of load_state stores from the JSON that save_state wrote.
use Prim.Native.String.{String}
use mfst.Common.{ℕ, ◌/◌, ◌≡◌, refl, ap, ◌∙◌, true, false, Option, none, some, if◌then◌else◌, ◌==◌}
use mfst.Context.{unset}
use mfst.State.Content.{real_path, map_bytes}
use mfst.State.Json.{Json, System}
use mfst.State.Lookup.{or_else}
use mfst.State.Save.{Program}
use mfst.State.Schema.{
  Pointer, all_props, put, index, version_ptr, device_uuid_ptr, reported_size_ptr,
  detected_size_ptr, sector_size_ptr, block_size_ptr, sequential_read_speed_ptr,
  sequential_write_speed_ptr, random_read_iops_ptr, random_write_iops_ptr, disable_curses_ptr,
  stats_file_ptr, log_file_ptr, lock_file_ptr, stats_interval_ptr, sector_map_ptr, bod_data_ptr,
  mod_data_ptr, rounds_completed_ptr, bytes_read_ptr, bytes_written_ptr, ffr_ptr, poptr_ptr,
  optr_ptr, tpfr_ptr, tfpfr_ptr,
}
use mfst.State.Validate.{Stack, Found, nothing_found}
use mfst.State.Noted.{fold_with, noted, put_some}
use mfst.State.Load.{Loaded, with_device, with_endurance, with_options, with_performance}
use mfst.State.Pack.{unpack}
use mfst.State.Validate.{two_bits}

-- A milestone that was not reached leaves the number as it is.
abbrev pub kept : ℕ → ℕ → ℕ
kept rounds old = if rounds == unset then old else rounds

-- The interval goes with the file.
abbrev pub interval_of : Option String → ℕ → ℕ → ℕ
interval_of none interval old = old
interval_of (some name) interval old = interval

module _ {A : Type 0} (a : Pointer → Option A) (p q : Pointer) where
  put_some-other : (o : Option A) → (index q == index p) ≡ false → put_some a p o q ≡ a q
  put_some-other none h = refl
  put_some-other (some v) h = ap (λ b. if b then some v else a q) h

put_some-same :
    {A : Type 0} (a : Pointer → Option A) (p : Pointer) (o : Option A)
    → (index p == index p) ≡ true
    → a p ≡ none
    → put_some a p o p ≡ o
put_some-same a p none h e = e
put_some-same a p (some v) h e = ap (λ b. if b then some v else a p) h

module _ {W : Type 0} (J : Json) (sys : System J W) (v : W) (p : Program J) (stack : Stack) where
  -- What the validation has noted at its end.
  abbrev pub all_noted : Found
  all_noted = fold_with (noted J sys v p) all_props (nothing_found stack)

  abbrev strings0 : Pointer → Option String
  strings0 =
      put (λ q. none) device_uuid_ptr (some (sys.uuid_unparse p.context.device_info.device_uuid))

  abbrev strings1 : Pointer → Option String
  strings1 = put_some strings0 stats_file_ptr (real_path J sys v p.program_options.stats_file)

  abbrev strings2 : Pointer → Option String
  strings2 = put_some strings1 log_file_ptr (real_path J sys v p.program_options.log_file)

  pub uuid_noted :
      all_noted.strings device_uuid_ptr ≡ some (sys.uuid_unparse p.context.device_info.device_uuid)
  uuid_noted =
      put_some-other strings2 lock_file_ptr device_uuid_ptr
        (real_path J sys v p.program_options.lock_file) refl
      ∙ put_some-other strings1 log_file_ptr device_uuid_ptr
          (real_path J sys v p.program_options.log_file) refl
      ∙ put_some-other strings0 stats_file_ptr device_uuid_ptr
          (real_path J sys v p.program_options.stats_file) refl

  pub stats_noted :
      all_noted.strings stats_file_ptr ≡ real_path J sys v p.program_options.stats_file
  stats_noted =
      put_some-other strings2 lock_file_ptr stats_file_ptr
        (real_path J sys v p.program_options.lock_file) refl
      ∙ put_some-other strings1 log_file_ptr stats_file_ptr
          (real_path J sys v p.program_options.log_file) refl
      ∙ put_some-same strings0 stats_file_ptr (real_path J sys v p.program_options.stats_file) refl
          refl

  pub log_noted : all_noted.strings log_file_ptr ≡ real_path J sys v p.program_options.log_file
  log_noted =
      put_some-other strings2 lock_file_ptr log_file_ptr
        (real_path J sys v p.program_options.lock_file) refl
      ∙ put_some-same strings1 log_file_ptr (real_path J sys v p.program_options.log_file) refl (
          put_some-other strings0 stats_file_ptr log_file_ptr
            (real_path J sys v p.program_options.stats_file) refl)

  pub lock_noted : all_noted.strings lock_file_ptr ≡ real_path J sys v p.program_options.lock_file
  lock_noted =
      put_some-same strings2 lock_file_ptr (real_path J sys v p.program_options.lock_file) refl (
        put_some-other strings1 log_file_ptr lock_file_ptr
          (real_path J sys v p.program_options.log_file) refl
        ∙ put_some-other strings0 stats_file_ptr lock_file_ptr
            (real_path J sys v p.program_options.stats_file) refl)

  -- What one property stores.
  abbrev pub stored : Pointer → Loaded J → Loaded J
  stored version_ptr l = record l { version = 2 }
  stored device_uuid_ptr l = record l {
    uuid_str = some (sys.uuid_unparse p.context.device_info.device_uuid);
  }
  stored reported_size_ptr l =
      with_device J sys (λ d. record d { logical_size = p.context.device_info.logical_size }) l
  stored detected_size_ptr l =
      with_device J sys (λ d. record d { physical_size = p.context.device_info.physical_size }) l
  stored sector_size_ptr l =
      with_device J sys (λ d. record d { sector_size = p.context.device_info.sector_size }) l
  stored block_size_ptr l =
      with_device J sys
        (λ d. record d { optimal_block_size = p.context.device_info.optimal_block_size }) l
  stored sequential_read_speed_ptr l =
      with_performance J sys
        (λ s. record s { sequential_read_speed = p.performance_test_info.sequential_read_speed }) l
  stored sequential_write_speed_ptr l =
      with_performance J sys
        (λ s. record s { sequential_write_speed = p.performance_test_info.sequential_write_speed })
        l
  stored random_read_iops_ptr l =
      with_performance J sys
        (λ s. record s { random_read_iops = p.performance_test_info.random_read_iops }) l
  stored random_write_iops_ptr l =
      with_performance J sys
        (λ s. record s { random_write_iops = p.performance_test_info.random_write_iops }) l
  stored disable_curses_ptr l =
      with_options J sys (λ o. record o { no_curses = p.program_options.orig_no_curses }) l
  stored stats_file_ptr l =
      with_options J sys
        (λ o. record o {
          stats_file = or_else (real_path J sys v p.program_options.stats_file) o.stats_file;
        })
        l
  stored log_file_ptr l =
      with_options J sys
        (λ o. record o {
          log_file = or_else (real_path J sys v p.program_options.log_file) o.log_file;
        })
        l
  stored lock_file_ptr l =
      with_options J sys
        (λ o. record o {
          lock_file = or_else (real_path J sys v p.program_options.lock_file) o.lock_file;
        })
        l
  stored stats_interval_ptr l =
      with_options J sys
        (λ o. record o {
          stats_interval =
              interval_of p.program_options.stats_file p.program_options.stats_interval
                o.stats_interval;
        })
        l
  stored sector_map_ptr l =
      with_endurance J sys
        (λ i. record i {
          sector_map =
              unpack (two_bits l.version)
                (p.context.device_info.physical_size / p.context.device_info.sector_size)
                (map_bytes J sys v p) i.sector_map;
        })
        l
  stored bod_data_ptr l =
      with_device J sys (λ d. record d { bod_buffer = p.context.device_info.bod_buffer }) l
  stored mod_data_ptr l =
      with_device J sys (λ d. record d { mod_buffer = p.context.device_info.mod_buffer }) l
  stored rounds_completed_ptr l = record l {
    tmp_num_rounds = p.context.endurance_test_info.rounds_completed;
  }
  stored bytes_read_ptr l = record l {
    tmp_bytes_read = p.context.endurance_test_info.stats_file_counters.total_bytes_read;
  }
  stored bytes_written_ptr l = record l {
    tmp_bytes_written = p.context.endurance_test_info.stats_file_counters.total_bytes_written;
  }
  stored ffr_ptr l =
      with_endurance J sys
        (λ i. record i {
          rounds_to_first_error =
              kept p.context.endurance_test_info.rounds_to_first_error i.rounds_to_first_error;
        })
        l
  stored poptr_ptr l =
      with_endurance J sys
        (λ i. record i {
          rounds_to_0_1_threshold =
              kept p.context.endurance_test_info.rounds_to_0_1_threshold i.rounds_to_0_1_threshold;
        })
        l
  stored optr_ptr l =
      with_endurance J sys
        (λ i. record i {
          rounds_to_1_threshold =
              kept p.context.endurance_test_info.rounds_to_1_threshold i.rounds_to_1_threshold;
        })
        l
  stored tpfr_ptr l =
      with_endurance J sys
        (λ i. record i {
          rounds_to_10_threshold =
              kept p.context.endurance_test_info.rounds_to_10_threshold i.rounds_to_10_threshold;
        })
        l
  stored tfpfr_ptr l =
      with_endurance J sys
        (λ i. record i {
          rounds_to_25_threshold =
              kept p.context.endurance_test_info.rounds_to_25_threshold i.rounds_to_25_threshold;
        })
        l
