-- ===== src/State/Save.antt =====
-- `save_state` of state.c. Every call of `json_object_object_add` that fails ends the function with
-- -1, `false` here, before any file is written; releasing the objects is left out.
use Prim.Native.String.{String, ◌++◌}
use mfst.Common.{ℕ, ◌==◌, Bool, true, false, Option, none, some, List, [], ◌∷◌, if◌then◌else◌}
use mfst.Common.{and_then, ◌++◌ as append}
use mfst.Context.{Context, unset}
use mfst.Options.{ProgramOptions}
use mfst.State.Json.{Json, System}
use mfst.State.Pack.{pack}

-- performance_test_info_type
pub record PerformanceTestInfo (R : Type 0) : Type 0 where
  pub sequential_read_speed : R
  pub sequential_write_speed : R
  pub random_read_iops : R
  pub random_write_iops : R

-- What state.c reads and writes: the context, with the speeds that the device was measured to
-- have, and the options.
pub record Program (J : Json) : Type 0 where
  pub context : Context
  pub performance_test_info : PerformanceTestInfo (J.Real)
  pub program_options : ProgramOptions

module _ {W : Type 0} (J : Json) (sys : System J W) where
  -- The members of one object, in the order in which they are added.
  abbrev pub Fields : Type 0
  Fields = List (String × J.Object)

  unfoldable pub add_all : J.Object → Fields → Option (J.Object)
  add_all o [] = some o
  add_all o ((key, obj) ∷ rest) =
      and_then (J.json_object_object_add o key obj) λ o'. add_all o' rest

  -- The object `parent` with its fields, added to `root`.
  unfoldable pub add_parent : String → Fields → J.Object → Option (J.Object)
  add_parent key fields root =
      and_then (add_all J.json_object_new_object fields)
        λ parent. J.json_object_object_add root key parent

  -- A string field, if there is the string.
  abbrev pub string_field : String → Option String → Option Fields
  string_field key none = none
  string_field key (some s) = some ((key, J.json_object_new_string s) ∷ [])

  -- A file of the options by its real path, when it is given.
  abbrev pub file_field : W → String → Option String → Option Fields
  file_field w key none = some []
  file_field w key (some name) = string_field key (sys.realpath w name)

  -- The lock file, for which `realpath` fails on NULL.
  abbrev pub lock_field : W → Option String → Option Fields
  lock_field w none = none
  lock_field w (some name) = string_field "lock_file" (sys.realpath w name)

  -- `stats_interval` goes with `stats_file`.
  abbrev pub interval_field : ProgramOptions → Fields
  interval_field options = elim options.stats_file [
    | none ↦ []
    | some name ↦ ("stats_interval", J.json_object_new_uint64 options.stats_interval) ∷ []
  ]

  -- A milestone, when it has been reached.
  abbrev pub milestone_field : String → ℕ → Fields
  milestone_field key rounds =
      if rounds == unset then [] else (key, J.json_object_new_int64 rounds) ∷ []

  abbrev pub geometry_fields : Context → Fields
  geometry_fields ctx =
      ("reported_size", J.json_object_new_uint64 ctx.device_info.logical_size)
      ∷ ("detected_size", J.json_object_new_uint64 ctx.device_info.physical_size)
      ∷ ("sector_size", J.json_object_new_int ctx.device_info.sector_size)
      ∷ []

  abbrev pub device_fields : Program J → Fields
  device_fields p =
      ("block_size", J.json_object_new_int p.context.device_info.optimal_block_size)
      ∷ (
        "sequential_read_speed",
        J.json_object_new_double p.performance_test_info.sequential_read_speed,
      )
      ∷ (
        "sequential_write_speed",
        J.json_object_new_double p.performance_test_info.sequential_write_speed,
      )
      ∷ ("random_read_iops", J.json_object_new_double p.performance_test_info.random_read_iops)
      ∷ ("random_write_iops", J.json_object_new_double p.performance_test_info.random_write_iops)
      ∷ []

  abbrev pub option_fields : W → ProgramOptions → Option Fields
  option_fields w options = and_then (file_field w "stats_file" options.stats_file) λ stats.
      and_then (file_field w "log_file" options.log_file) λ log.
        and_then (lock_field w options.lock_file) λ lock. some (
          ("disable_curses", J.json_object_new_boolean options.orig_no_curses)
          ∷ append stats (append (interval_field options) (append log lock)))

  -- The counters and the milestones.
  abbrev pub round_fields : Context → Fields
  round_fields ctx =
      let info = ctx.endurance_test_info in
      ("rounds_completed", J.json_object_new_int64 info.rounds_completed)
      ∷ ("bytes_read", J.json_object_new_uint64 info.stats_file_counters.total_bytes_read)
      ∷ ("bytes_written", J.json_object_new_uint64 info.stats_file_counters.total_bytes_written)
      ∷ append (milestone_field "first_failure_round" info.rounds_to_first_error) (
          append (milestone_field "rounds_to_0_1_threshold" info.rounds_to_0_1_threshold) (
            append (milestone_field "rounds_to_1_threshold" info.rounds_to_1_threshold) (
              append (milestone_field "ten_percent_failure_round" info.rounds_to_10_threshold)
                (milestone_field "twenty_five_percent_failure_round" info.rounds_to_25_threshold))))

  abbrev pub state_fields : W → Context → Option Fields
  state_fields w ctx =
      let n = ctx.device_info.num_physical_sectors in
      and_then (sys.base64_encode w (pack ctx.endurance_test_info.sector_map n)) λ sector_map.
        and_then (sys.base64_encode w ctx.device_info.bod_buffer) λ bod_data.
          and_then (sys.base64_encode w ctx.device_info.mod_buffer) λ mod_data. some (
            ("sector_map", J.json_object_new_string sector_map)
            ∷ ("beginning_of_device_data", J.json_object_new_string bod_data)
            ∷ ("middle_of_device_data", J.json_object_new_string mod_data)
            ∷ round_fields ctx)

  -- The JSON of the state: `root` when it is complete.
  unfoldable pub state_root : W → Program J → Option (J.Object)
  state_root w p =
      let ctx = p.context in
      let uuid = J.json_object_new_string (sys.uuid_unparse ctx.device_info.device_uuid) in
      and_then (option_fields w p.program_options) λ options. and_then (state_fields w ctx) λ state.
        and_then
          (add_all J.json_object_new_object
            (("version", J.json_object_new_int 2) ∷ ("device_uuid", uuid) ∷ []))
          λ root. and_then (add_parent "device_geometry" (geometry_fields ctx) root) λ root.
            and_then (add_parent "device_info" (device_fields p) root) λ root.
              and_then (add_parent "program_options" options root)
                λ root. add_parent "state" state root

  -- A temporary file that could not be moved is removed.
  abbrev pub after_rename : String → Bool → W → Bool × W
  after_rename filename false w = (false, sys.unlink filename w)
  after_rename filename true w = (true, w)

  -- The temporary file is moved over the state file when it is complete.
  abbrev pub after_write : String → String → Bool → W → Bool × W
  after_write filename state_file false w = (false, w)
  after_write filename state_file true w =
      let renamed = sys.rename filename state_file w in after_rename filename renamed.0 renamed.1

  unfoldable pub write_state : String → J.Object → W → Bool × W
  write_state state_file root w =
      let filename = state_file ++ ".temp" in
      let written = sys.json_object_to_file filename root w in
      after_write filename state_file written.0 written.1

  -- The write, when the JSON is complete.
  abbrev pub write_root : String → Option (J.Object) → W → Bool × W
  write_root state_file none w = (false, w)
  write_root state_file (some root) w = write_state state_file root w

  abbrev pub save_to : Program J → Option String → W → Bool × W
  save_to p none w = (true, w)
  save_to p (some state_file) w = write_root state_file (state_root w p) w

  unfoldable pub save_state : Program J → W → Bool × W
  save_state p w = save_to p p.program_options.state_file w
