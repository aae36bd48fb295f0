-- ===== src/State/Noted.antt =====
-- What load_state notes while it validates the JSON that save_state wrote.
use Prim.Native.String.{String}
use mfst.Common.{ℕ, ◌^◌, ◌<◌, ◌≡◌, ◌⊎◌, true, Option, none, some, List, [], ◌∷◌, length}
use mfst.Context.{unset}
use mfst.State.Content.{real_path, map_bytes}
use mfst.State.Json.{Json, System}
use mfst.State.Save.{Program}
use mfst.State.Schema.{
  Pointer, put, version_ptr, device_uuid_ptr, detected_size_ptr, sector_size_ptr, stats_file_ptr,
  log_file_ptr, lock_file_ptr, sector_map_ptr, bod_data_ptr, mod_data_ptr,
}
use mfst.State.Validate.{Found}

abbrev pub fold_with : {A : Type 0} → (Pointer → A → A) → List Pointer → A → A
fold_with f [] a = a
fold_with f (p ∷ ps) a = fold_with f ps (f p a)

-- A number that load_state accepts, below 2 ^ k.
abbrev pub Positive : ℕ → ℕ → Type 0
Positive k n = (0 < n) × (n < 2 ^ k)

-- A milestone that has not been reached, or was not in round 0.
abbrev pub Milestone : ℕ → Type 0
Milestone n = (n ≡ unset) ⊎ Positive 63 n

-- What load_state asks of the numbers in the file, and the sizes that the program keeps.
pub record IsLoadable (J : Json) (p : Program J) : Type 0 where
  pub logical_size : Positive 64 p.context.device_info.logical_size
  pub physical_size : Positive 64 p.context.device_info.physical_size
  pub sector_size : Positive 31 p.context.device_info.sector_size
  pub block_size : Positive 31 p.context.device_info.optimal_block_size
  pub read_speed : J.is_positive p.performance_test_info.sequential_read_speed ≡ true
  pub write_speed : J.is_positive p.performance_test_info.sequential_write_speed ≡ true
  pub read_iops : J.is_positive p.performance_test_info.random_read_iops ≡ true
  pub write_iops : J.is_positive p.performance_test_info.random_write_iops ≡ true
  pub stats_interval : Positive 64 p.program_options.stats_interval
  pub rounds_completed : Positive 63 p.context.endurance_test_info.rounds_completed
  pub bytes_read : Positive 64 p.context.endurance_test_info.stats_file_counters.total_bytes_read
  pub bytes_written :
      Positive 64 p.context.endurance_test_info.stats_file_counters.total_bytes_written
  pub first_error : Milestone p.context.endurance_test_info.rounds_to_first_error
  pub threshold_0_1 : Milestone p.context.endurance_test_info.rounds_to_0_1_threshold
  pub threshold_1 : Milestone p.context.endurance_test_info.rounds_to_1_threshold
  pub threshold_10 : Milestone p.context.endurance_test_info.rounds_to_10_threshold
  pub threshold_25 : Milestone p.context.endurance_test_info.rounds_to_25_threshold

-- Memory and the encodings do not fail.
pub record Works {W : Type 0} (J : Json) (sys : System J W) (w : W) : Type 0 where
  pub strdup-some : (s : String) → sys.strdup w s ≡ some s
  pub malloc-some : (n : ℕ) → (m : List ℕ) × ((sys.malloc w n ≡ some m) × (length m ≡ n))
  pub decode-encode :
      (v : W) (bytes : List ℕ) (s : String)
      → sys.base64_encode v bytes ≡ some s
      → sys.base64_decode w s ≡ some bytes
  pub parse-unparse : (u : List ℕ) → length u ≡ 16 → sys.uuid_parse (sys.uuid_unparse u) ≡ some u

abbrev pub put_some : {A : Type 0} → (Pointer → Option A) → Pointer → Option A → Pointer → Option A
put_some a p none = a
put_some a p (some v) = put a p (some v)

module _ {W : Type 0} (J : Json) (sys : System J W) (v : W) (p : Program J) where
  -- What one property adds.
  abbrev pub noted : Pointer → Found → Found
  noted version_ptr found = record found { version = 2 }
  noted detected_size_ptr found = record found {
    detected_size = p.context.device_info.physical_size;
  }
  noted sector_size_ptr found = record found { sector_size = p.context.device_info.sector_size }
  noted device_uuid_ptr found = record found {
    strings =
        put found.strings device_uuid_ptr
          (some (sys.uuid_unparse p.context.device_info.device_uuid));
  }
  noted stats_file_ptr found = record found {
    strings =
        put_some found.strings stats_file_ptr (real_path J sys v p.program_options.stats_file);
  }
  noted log_file_ptr found = record found {
    strings = put_some found.strings log_file_ptr (real_path J sys v p.program_options.log_file);
  }
  noted lock_file_ptr found = record found {
    strings = put_some found.strings lock_file_ptr (real_path J sys v p.program_options.lock_file);
  }
  noted sector_map_ptr found = record found {
    decoded = put found.decoded sector_map_ptr (map_bytes J sys v p);
  }
  noted bod_data_ptr found = record found {
    decoded = put found.decoded bod_data_ptr p.context.device_info.bod_buffer;
  }
  noted mod_data_ptr found = record found {
    decoded = put found.decoded mod_data_ptr p.context.device_info.mod_buffer;
  }
  noted _ found = found
