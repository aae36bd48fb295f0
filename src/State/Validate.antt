-- ===== src/State/Validate.antt =====
-- The first half of `load_state` of state.c: the properties of the JSON file are checked, and the
-- strings are copied and decoded. A variable that C leaves uninitialised is an argument, `stack`.
-- Releasing memory and the log are left out.
use Prim.Native.String.{String}
use mfst.Common.{
  and_then, ℕ, ◌/◌, ◌^◌, ◌-◌, ◌==◌, ltb, leb, not, ◌&&◌, ◌||◌, Bool, true, false, Option, none,
  some, List, [], ◌∷◌, if◌then◌else◌, length,
}
use mfst.State.Json.{
  Json, System, JsonType, json_type_null, json_type_boolean, json_type_double, json_type_int,
  json_type_object, json_type_array, json_type_string,
}
use mfst.State.Pack.{groups}
use mfst.State.Schema.{
  Pointer, path, prop_types, required_props, base64_props, put, version_ptr, detected_size_ptr,
  sector_size_ptr, sector_map_ptr, bod_data_ptr, mod_data_ptr,
}

abbrev pub bod_mod_buffer_size : ℕ
bod_mod_buffer_size = 1048576

-- What the validation notes: `buffers` and `buffer_lens`, apart for the properties in base64 and
-- the others, and three numbers.
pub record Found : Type 0 where
  pub strings : Pointer → Option String
  pub decoded : Pointer → List ℕ
  pub detected_size : ℕ
  pub sector_size : ℕ
  pub version : ℕ

-- The contents of `detected_size` and `sector_size` before they are set
abbrev pub Stack : Type 0
Stack = ℕ × ℕ

abbrev pub nothing_found : Stack → Found
nothing_found stack = record {
  strings = λ p. none;
  decoded = λ p. [];
  detected_size = stack.0;
  sector_size = stack.1;
  version = 1;
}

-- `version >= 2` of a 32-bit `int`
abbrev pub two_bits : ℕ → Bool
two_bits version = leb 2 version && ltb version (2 ^ 31)

abbrev pub is_null : JsonType → Bool
is_null json_type_null = true
is_null _ = false

abbrev pub type_number : JsonType → ℕ
type_number json_type_null = 0
type_number json_type_boolean = 1
type_number json_type_double = 2
type_number json_type_int = 3
type_number json_type_object = 4
type_number json_type_array = 5
type_number json_type_string = 6

-- A property of type double may be written as an integer.
abbrev pub type_fits : JsonType → JsonType → Bool
type_fits json_type_double t = (type_number t == 3) || (type_number t == 2)
type_fits expected t = type_number t == type_number expected

abbrev pub expected_lens : Found → Pointer → ℕ
expected_lens found sector_map_ptr =
    groups (if two_bits found.version then 4 else 8) (found.detected_size / found.sector_size)
expected_lens found bod_data_ptr = bod_mod_buffer_size
expected_lens found mod_data_ptr = bod_mod_buffer_size
expected_lens found _ = 2 ^ 64 - 1

-- The second loop: every property in base64 has the expected length.
unfoldable pub lengths_fit : Found → List Pointer → Bool
lengths_fit found [] = true
lengths_fit found (p ∷ ps) =
    (not (base64_props p) || (length (found.decoded p) == expected_lens found p))
    && lengths_fit found ps

module _ {W : Type 0} (J : Json) (sys : System J W) where
  -- The three numbers that are noted for later.
  abbrev pub remember : Pointer → J.Object → Found → Found
  remember version_ptr obj found = record found { version = J.json_object_get_int obj }
  remember detected_size_ptr obj found = record found {
    detected_size = J.json_object_get_uint64 obj;
  }
  remember sector_size_ptr obj found = record found { sector_size = J.json_object_get_uint64 obj }
  remember _ obj found = found

  abbrev pub check_decoded : Pointer → Option (List ℕ) → Found → Option Found
  check_decoded p none found = none
  check_decoded p (some buffer) found = some (record found { decoded = put found.decoded p buffer })

  -- A string that has been copied, which is in base64 or not.
  abbrev pub check_copy : W → Pointer → Bool → String → Found → Option Found
  check_copy w p false s found = some (record found { strings = put found.strings p (some s) })
  check_copy w p true s found = check_decoded p (sys.base64_decode w s) found

  abbrev pub check_string : W → Pointer → Option String → Found → Option Found
  check_string w p none found = none
  check_string w p (some s) found = check_copy w p (base64_props p) s found

  -- A number must be more than 0, a string is copied.
  abbrev pub check_value : W → JsonType → Pointer → J.Object → Found → Option Found
  check_value w json_type_int p obj found =
      if J.json_object_get_uint64 obj == 0 then none else some (remember p obj found)
  check_value w json_type_double p obj found =
      if J.is_positive (J.json_object_get_double obj) then some (remember p obj found) else none
  check_value w json_type_string p obj found =
      check_string w p (sys.strdup w (J.json_object_get_string obj)) found
  check_value w _ p obj found = some (remember p obj found)

  -- The value, by the type of the property and its own.
  abbrev pub check_typed : W → Pointer → JsonType → JsonType → J.Object → Found → Option Found
  check_typed w p expected type obj found =
      if is_null type
      then some found
      else if type_fits expected type
      then check_value w expected p obj found
      else none

  -- One round of the validation.
  abbrev pub check_prop : W → Pointer → Option (J.Object) → Found → Option Found
  check_prop w p none found = if required_props p then none else some found
  check_prop w p (some obj) found =
      check_typed w p (prop_types p) (J.json_object_get_type obj) obj found

  unfoldable pub validate : W → J.Object → List Pointer → Found → Option Found
  validate w root [] found = some found
  validate w root (p ∷ ps) found =
      and_then (check_prop w p (J.json_pointer_get root (path p)) found)
        λ found'. validate w root ps found'
