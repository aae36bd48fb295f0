-- ===== src/State/Schema.antt =====
-- The properties of the JSON file: the JSON pointers of `load_state`, in the order of `all_props`,
-- and the tables beside it.
use Prim.Native.String.{String}
use mfst.Common.{ℕ, Bool, true, false, List, [], ◌∷◌, if◌then◌else◌, ◌==◌}
use mfst.State.Json.{JsonType, json_type_boolean, json_type_double, json_type_int, json_type_string}

pub data Pointer : Type 0 where
  version_ptr device_uuid_ptr reported_size_ptr detected_size_ptr : Pointer
  sector_size_ptr block_size_ptr sequential_read_speed_ptr sequential_write_speed_ptr : Pointer
  random_read_iops_ptr random_write_iops_ptr disable_curses_ptr stats_file_ptr : Pointer
  log_file_ptr lock_file_ptr stats_interval_ptr sector_map_ptr : Pointer
  bod_data_ptr mod_data_ptr rounds_completed_ptr bytes_read_ptr : Pointer
  bytes_written_ptr ffr_ptr poptr_ptr optr_ptr : Pointer
  tpfr_ptr tfpfr_ptr : Pointer

abbrev pub all_props : List Pointer
all_props =
    version_ptr ∷ device_uuid_ptr ∷ reported_size_ptr ∷ detected_size_ptr ∷ sector_size_ptr
    ∷ block_size_ptr ∷ sequential_read_speed_ptr ∷ sequential_write_speed_ptr ∷ random_read_iops_ptr
    ∷ random_write_iops_ptr ∷ disable_curses_ptr ∷ stats_file_ptr ∷ log_file_ptr ∷ lock_file_ptr
    ∷ stats_interval_ptr ∷ sector_map_ptr ∷ bod_data_ptr ∷ mod_data_ptr ∷ rounds_completed_ptr
    ∷ bytes_read_ptr ∷ bytes_written_ptr ∷ ffr_ptr ∷ poptr_ptr ∷ optr_ptr ∷ tpfr_ptr ∷ tfpfr_ptr
    ∷ []

-- The keys on the way to the property.
abbrev pub path : Pointer → List String
path version_ptr = "version" ∷ []
path device_uuid_ptr = "device_uuid" ∷ []
path reported_size_ptr = "device_geometry" ∷ "reported_size" ∷ []
path detected_size_ptr = "device_geometry" ∷ "detected_size" ∷ []
path sector_size_ptr = "device_geometry" ∷ "sector_size" ∷ []
path block_size_ptr = "device_info" ∷ "block_size" ∷ []
path sequential_read_speed_ptr = "device_info" ∷ "sequential_read_speed" ∷ []
path sequential_write_speed_ptr = "device_info" ∷ "sequential_write_speed" ∷ []
path random_read_iops_ptr = "device_info" ∷ "random_read_iops" ∷ []
path random_write_iops_ptr = "device_info" ∷ "random_write_iops" ∷ []
path disable_curses_ptr = "program_options" ∷ "disable_curses" ∷ []
path stats_file_ptr = "program_options" ∷ "stats_file" ∷ []
path log_file_ptr = "program_options" ∷ "log_file" ∷ []
path lock_file_ptr = "program_options" ∷ "lock_file" ∷ []
path stats_interval_ptr = "program_options" ∷ "stats_interval" ∷ []
path sector_map_ptr = "state" ∷ "sector_map" ∷ []
path bod_data_ptr = "state" ∷ "beginning_of_device_data" ∷ []
path mod_data_ptr = "state" ∷ "middle_of_device_data" ∷ []
path rounds_completed_ptr = "state" ∷ "rounds_completed" ∷ []
path bytes_read_ptr = "state" ∷ "bytes_read" ∷ []
path bytes_written_ptr = "state" ∷ "bytes_written" ∷ []
path ffr_ptr = "state" ∷ "first_failure_round" ∷ []
path poptr_ptr = "state" ∷ "rounds_to_0_1_threshold" ∷ []
path optr_ptr = "state" ∷ "rounds_to_1_threshold" ∷ []
path tpfr_ptr = "state" ∷ "ten_percent_failure_round" ∷ []
path tfpfr_ptr = "state" ∷ "twenty_five_percent_failure_round" ∷ []

abbrev pub prop_types : Pointer → JsonType
prop_types version_ptr = json_type_int
prop_types device_uuid_ptr = json_type_string
prop_types reported_size_ptr = json_type_int
prop_types detected_size_ptr = json_type_int
prop_types sector_size_ptr = json_type_int
prop_types block_size_ptr = json_type_int
prop_types sequential_read_speed_ptr = json_type_double
prop_types sequential_write_speed_ptr = json_type_double
prop_types random_read_iops_ptr = json_type_double
prop_types random_write_iops_ptr = json_type_double
prop_types disable_curses_ptr = json_type_boolean
prop_types stats_file_ptr = json_type_string
prop_types log_file_ptr = json_type_string
prop_types lock_file_ptr = json_type_string
prop_types stats_interval_ptr = json_type_int
prop_types sector_map_ptr = json_type_string
prop_types bod_data_ptr = json_type_string
prop_types mod_data_ptr = json_type_string
prop_types rounds_completed_ptr = json_type_int
prop_types bytes_read_ptr = json_type_int
prop_types bytes_written_ptr = json_type_int
prop_types ffr_ptr = json_type_int
prop_types poptr_ptr = json_type_int
prop_types optr_ptr = json_type_int
prop_types tpfr_ptr = json_type_int
prop_types tfpfr_ptr = json_type_int

abbrev pub required_props : Pointer → Bool
required_props version_ptr = false
required_props device_uuid_ptr = false
required_props reported_size_ptr = true
required_props detected_size_ptr = true
required_props sector_size_ptr = true
required_props block_size_ptr = true
required_props sequential_read_speed_ptr = true
required_props sequential_write_speed_ptr = true
required_props random_read_iops_ptr = true
required_props random_write_iops_ptr = true
required_props disable_curses_ptr = false
required_props stats_file_ptr = false
required_props log_file_ptr = false
required_props lock_file_ptr = false
required_props stats_interval_ptr = false
required_props sector_map_ptr = true
required_props bod_data_ptr = true
required_props mod_data_ptr = true
required_props rounds_completed_ptr = true
required_props bytes_read_ptr = true
required_props bytes_written_ptr = true
required_props ffr_ptr = false
required_props poptr_ptr = false
required_props optr_ptr = false
required_props tpfr_ptr = false
required_props tfpfr_ptr = false

abbrev pub base64_props : Pointer → Bool
base64_props version_ptr = false
base64_props device_uuid_ptr = false
base64_props reported_size_ptr = false
base64_props detected_size_ptr = false
base64_props sector_size_ptr = false
base64_props block_size_ptr = false
base64_props sequential_read_speed_ptr = false
base64_props sequential_write_speed_ptr = false
base64_props random_read_iops_ptr = false
base64_props random_write_iops_ptr = false
base64_props disable_curses_ptr = false
base64_props stats_file_ptr = false
base64_props log_file_ptr = false
base64_props lock_file_ptr = false
base64_props stats_interval_ptr = false
base64_props sector_map_ptr = true
base64_props bod_data_ptr = true
base64_props mod_data_ptr = true
base64_props rounds_completed_ptr = false
base64_props bytes_read_ptr = false
base64_props bytes_written_ptr = false
base64_props ffr_ptr = false
base64_props poptr_ptr = false
base64_props optr_ptr = false
base64_props tpfr_ptr = false
base64_props tfpfr_ptr = false

-- The index in `all_props`.
abbrev pub index : Pointer → ℕ
index version_ptr = 0
index device_uuid_ptr = 1
index reported_size_ptr = 2
index detected_size_ptr = 3
index sector_size_ptr = 4
index block_size_ptr = 5
index sequential_read_speed_ptr = 6
index sequential_write_speed_ptr = 7
index random_read_iops_ptr = 8
index random_write_iops_ptr = 9
index disable_curses_ptr = 10
index stats_file_ptr = 11
index log_file_ptr = 12
index lock_file_ptr = 13
index stats_interval_ptr = 14
index sector_map_ptr = 15
index bod_data_ptr = 16
index mod_data_ptr = 17
index rounds_completed_ptr = 18
index bytes_read_ptr = 19
index bytes_written_ptr = 20
index ffr_ptr = 21
index poptr_ptr = 22
index optr_ptr = 23
index tpfr_ptr = 24
index tfpfr_ptr = 25

-- `a[i] = v` in an array with an element for each property
abbrev pub put : {A : Type 0} → (Pointer → A) → Pointer → A → Pointer → A
put a p v q = if index q == index p then v else a q
