-- ===== src/State/Restoring.antt =====
-- What load_state makes of the JSON of a saved state.
use mfst.Common.{
  get_or, get_or_ext, map, zero, suc, ◌&&◌, ℕ, ◌/◌, ◌<◌, ◌≡◌, refl, sym, ap, ap₂, ◌∙◌, arith, Bool,
  true, Option, none, some, List, [], ◌∷◌, ◌==◌, length,
}
use mfst.Context.{DeviceInfo, EnduranceTestInfo}
use mfst.Options.{ProgramOptions}
use mfst.State.Stored.{kept, interval_of, all_noted}
use mfst.State.Content.{real_path, map_bytes}
use mfst.State.Json.{Json, System}
use mfst.State.Laws.{JsonIsLawful}
use mfst.State.Lookup.{or_else}
use mfst.State.Save.{Program}
use mfst.State.Schema.{all_props}
use mfst.State.Validate.{Stack, Found, nothing_found}
use mfst.State.Noted.{IsLoadable, Works}
use mfst.State.Load.{with_context}
use mfst.State.Pack.{unpack}
use mfst.State.Save.{state_root}
use mfst.State.Stored.{kept, interval_of, all_noted}
use mfst.State.Load.{
  load_state_success, load_checked, load_found, load_values, load_root, finish, set_parsed,
}
use mfst.State.Validate.{lengths_fit, bod_mod_buffer_size}
use mfst.State.Restored.{restored_flags, unpack-pack, length-unpack-pack}
use mfst.State.Unpacked.{length-pack}
use mfst.State.Pack.{pack, groups}
use mfst.State.Passes.{validate-content}
use mfst.State.Populated.{populate-content}
use mfst.SectorMap.{with_map}

-- The sizes that the program keeps.
pub record IsSized (J : Json) (p : Program J) : Type 0 where
  pub sectors :
      p.context.device_info.num_physical_sectors
      ≡ p.context.device_info.physical_size / p.context.device_info.sector_size
  pub sector_map :
      length p.context.endurance_test_info.sector_map ≡ p.context.device_info.num_physical_sectors
  pub bod_buffer : length p.context.device_info.bod_buffer ≡ bod_mod_buffer_size
  pub mod_buffer : length p.context.device_info.mod_buffer ≡ bod_mod_buffer_size
  pub device_uuid : length p.context.device_info.device_uuid ≡ 16

get_or-map :
    (f : ℕ → ℕ) (xs : List ℕ) (i : ℕ) → i < length xs → get_or (map f xs) i 0 ≡ f (get_or xs i 0)
get_or-map f [] i h = absurd (omega arith)
get_or-map f (x ∷ xs) zero h = refl
get_or-map f (x ∷ xs) (suc i) h = get_or-map f xs i (omega arith)

length-map : (f : ℕ → ℕ) (xs : List ℕ) → length (map f xs) ≡ length xs
length-map f [] = refl
length-map f (x ∷ xs) = ap suc (length-map f xs)

unpack-pack-map :
    (m base : List ℕ) (n : ℕ)
    → length base ≡ n
    → length m ≡ n
    → unpack true n (pack m n) base ≡ map restored_flags m
unpack-pack-map m base n e h =
    get_or_ext 0 (unpack true n (pack m n) base) (map restored_flags m)
      (length-unpack-pack m n base ∙ e ∙ sym h ∙ sym (length-map restored_flags m))
      (λ i lt.
        let l : i < n = omega (arith, length-unpack-pack m n base) in
        unpack-pack m n base i e l ∙ sym (get_or-map restored_flags m i (omega arith)))

module _ {W : Type 0} (J : Json) (sys : System J W) (v : W) (p q : Program J) where
  abbrev device_with : Option (List ℕ) → DeviceInfo
  device_with uuid = set_parsed J sys uuid record (q.context.device_info) {
    logical_size = p.context.device_info.logical_size;
    physical_size = p.context.device_info.physical_size;
    sector_size = p.context.device_info.sector_size;
    optimal_block_size = p.context.device_info.optimal_block_size;
    bod_buffer = p.context.device_info.bod_buffer;
    mod_buffer = p.context.device_info.mod_buffer;
  }

  abbrev endurance_with : List ℕ → EnduranceTestInfo
  endurance_with m =
      let saved = p.context.endurance_test_info in
      let old = q.context.endurance_test_info in
      record old {
        rounds_completed = saved.rounds_completed;
        sector_map = m;
        rounds_to_first_error = kept saved.rounds_to_first_error old.rounds_to_first_error;
        rounds_to_0_1_threshold = kept saved.rounds_to_0_1_threshold old.rounds_to_0_1_threshold;
        rounds_to_1_threshold = kept saved.rounds_to_1_threshold old.rounds_to_1_threshold;
        rounds_to_10_threshold = kept saved.rounds_to_10_threshold old.rounds_to_10_threshold;
        rounds_to_25_threshold = kept saved.rounds_to_25_threshold old.rounds_to_25_threshold;
        stats_file_counters = record (old.stats_file_counters) {
          total_bytes_read = saved.stats_file_counters.total_bytes_read;
          total_bytes_written = saved.stats_file_counters.total_bytes_written;
        };
      }

  abbrev restored_options : ProgramOptions
  restored_options =
      let saved = p.program_options in
      let old = q.program_options in
      record old {
        no_curses = saved.orig_no_curses;
        stats_file = or_else (real_path J sys v saved.stats_file) old.stats_file;
        log_file = or_else (real_path J sys v saved.log_file) old.log_file;
        lock_file = or_else (real_path J sys v saved.lock_file) old.lock_file;
        stats_interval = interval_of saved.stats_file saved.stats_interval old.stats_interval;
      }

  abbrev restored_with : Option (List ℕ) → List ℕ → Program J
  restored_with uuid m = record {
    context = record (q.context) {
      device_info = device_with uuid;
      endurance_test_info = endurance_with m;
    };
    performance_test_info = p.performance_test_info;
    program_options = restored_options;
  }

  -- `q` after the state of `p` has been loaded into it.
  abbrev pub restored : Program J
  restored =
      restored_with (some p.context.device_info.device_uuid)
        (map restored_flags p.context.endurance_test_info.sector_map)

module _ {W : Type 0} (J : Json) (sys : System J W) (laws : JsonIsLawful J) (v w : W)
    (works : Works J sys w) (p : Program J) (loadable : IsLoadable J p) (sized : IsSized J p)
    (root : J.Object) (e : state_root J sys v p ≡ some root) (stack : Stack) where
  abbrev found : Found
  found = all_noted J sys v p stack

  same : {a b : ℕ} → a ≡ b → (a == b) ≡ true
  same h = ground arith

  three : (a b c : Bool) → a ≡ true → b ≡ true → c ≡ true → (a && (b && (c && true))) ≡ true
  three a b c x y z = ap₂ (λ a b. a && (b && (c && true))) x y ∙ ap (λ c. c && true) z

  lengths : lengths_fit found all_props ≡ true
  unfolding lengths_fit
  lengths =
      three
        (length (map_bytes J sys v p)
          == groups 4 (p.context.device_info.physical_size / p.context.device_info.sector_size))
        (length p.context.device_info.bod_buffer == bod_mod_buffer_size)
        (length p.context.device_info.mod_buffer == bod_mod_buffer_size)
        (same (
          length-pack p.context.endurance_test_info.sector_map
            p.context.device_info.num_physical_sectors
          ∙ ap (groups 4) sized.sectors))
        (same sized.bod_buffer) (same sized.mod_buffer)

  load_values-restored :
      (q : Program J) (m : List ℕ)
      → length m ≡ p.context.device_info.physical_size / p.context.device_info.sector_size
      → load_values J sys root found (some m) q ≡ (load_state_success, restored J sys v p q)
  unfolding load_values finish
  load_values-restored q m h =
      ap (λ l. (load_state_success, finish J sys l))
        (populate-content J sys laws v p loadable root e stack record {
          program = with_context J sys (λ c. with_map c m) q;
          uuid_str = none;
          tmp_num_rounds = 0;
          tmp_bytes_read = 0;
          tmp_bytes_written = 0;
          version = found.version;
        })
      ∙ ap₂ (λ uuid sector_map. (load_state_success, restored_with J sys v p q uuid sector_map))
          (works.parse-unparse p.context.device_info.device_uuid sized.device_uuid)
          (ap (λ n. unpack true n (map_bytes J sys v p) m) (sym sized.sectors)
            ∙ unpack-pack-map p.context.endurance_test_info.sector_map m
                p.context.device_info.num_physical_sectors (h ∙ sym sized.sectors) sized.sector_map)

  pub load_root-restored :
      (q : Program J) → load_root J sys w stack root q ≡ (load_state_success, restored J sys v p q)
  unfolding load_root
  load_root-restored q =
      let n = p.context.device_info.physical_size / p.context.device_info.sector_size in
      let m = works.malloc-some n in
      ap (λ o. load_found J sys w root o q)
        (validate-content J sys laws w works v p loadable root e (nothing_found stack))
      ∙ ap (λ b. load_checked J sys w root found b q) lengths
      ∙ ap (λ o. load_values J sys root found o q) (m.1.0)
      ∙ load_values-restored q (m.0) (m.1.1)
