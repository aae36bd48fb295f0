-- ===== src/State/Json.antt =====
-- What state.c calls: the JSON library, files, strings, memory, libuuid and base64.c. `Object` is
-- `struct json_object`, of any type, and `Real` is `double`. A property of an object is reached by
-- a JSON pointer, which is the list of its keys: "/state/sector_map" is two keys. The functions of
-- `json_object_new_` do not fail, as the source assumes. A failed call is `none` or `false`.
use Prim.Native.String.{String}
use mfst.Common.{ℕ, Bool, Option, List}
use mfst.Device.{Errno}

-- json_type of json-c
pub data JsonType : Type 0 where
  json_type_null json_type_boolean json_type_double json_type_int : JsonType
  json_type_object json_type_array json_type_string : JsonType

pub record Json : Type 1 where
  pub Object : Type 0
  pub Real : Type 0
  pub json_object_new_object : Object
  pub json_object_new_int : ℕ → Object
  pub json_object_new_int64 : ℕ → Object
  pub json_object_new_uint64 : ℕ → Object
  pub json_object_new_double : Real → Object
  pub json_object_new_boolean : Bool → Object
  pub json_object_new_string : String → Object
  -- The object with the property added.
  pub json_object_object_add : Object → String → Object → Option Object
  pub json_pointer_get : Object → List String → Option Object
  pub json_object_get_type : Object → JsonType
  pub json_object_get_int : Object → ℕ
  -- The 64 bits of the number.
  pub json_object_get_int64 : Object → ℕ
  -- 0 for a negative number.
  pub json_object_get_uint64 : Object → ℕ
  pub json_object_get_double : Object → Real
  pub json_object_get_boolean : Object → Bool
  pub json_object_get_string : Object → String
  -- `> 0`
  pub is_positive : Real → Bool

-- The rest of the system, with the states `W` of the file system and of memory.
pub record System (J : Json) (W : Type 0) : Type 0 where
  pub realpath : W → String → Option String
  -- `none` when the file is there.
  pub stat : W → String → Option Errno
  pub json_object_from_file : W → String → Option (J.Object)
  pub json_object_to_file : String → J.Object → W → Bool × W
  pub rename : String → String → W → Bool × W
  pub unlink : String → W → W
  pub malloc : W → ℕ → Option (List ℕ)
  pub strdup : W → String → Option String
  pub base64_encode : W → List ℕ → Option String
  pub base64_decode : W → String → Option (List ℕ)
  pub uuid_unparse : List ℕ → String
  pub uuid_parse : String → Option (List ℕ)
