-- ===== src/State/Laws.antt =====
-- What state.c relies on of the functions that it calls.
use Prim.Native.String.{String}
use text.Mathlib.Text.{◌==◌}
use mfst.Common.{ℕ, ◌^◌, ◌<◌, ◌≡◌, ◌≢◌, Bool, true, false, none, some, List, [], ◌∷◌, if◌then◌else◌}
use mfst.State.Json.{
  Json, System, json_type_boolean, json_type_double, json_type_int, json_type_string,
}

-- An object gives back what was added to it. Numbers keep their values when they fit the type that
-- they are read as.
pub record JsonIsLawful (J : Json) : Type 0 where
  pub get-new :
      (j : String) (path : List String)
      → J.json_pointer_get J.json_object_new_object (j ∷ path) ≡ none
  pub get-root : (o : J.Object) → J.json_pointer_get o [] ≡ some o
  pub get-add :
      (o o' v : J.Object) (k j : String) (path : List String)
      → J.json_object_object_add o k v ≡ some o'
      → J.json_pointer_get o' (j ∷ path)
        ≡ (if j == k then J.json_pointer_get v path else J.json_pointer_get o (j ∷ path))
  pub type-int : (n : ℕ) → J.json_object_get_type (J.json_object_new_int n) ≡ json_type_int
  pub type-int64 : (n : ℕ) → J.json_object_get_type (J.json_object_new_int64 n) ≡ json_type_int
  pub type-uint64 : (n : ℕ) → J.json_object_get_type (J.json_object_new_uint64 n) ≡ json_type_int
  pub type-double :
      (r : J.Real) → J.json_object_get_type (J.json_object_new_double r) ≡ json_type_double
  pub type-boolean :
      (b : Bool) → J.json_object_get_type (J.json_object_new_boolean b) ≡ json_type_boolean
  pub type-string :
      (s : String) → J.json_object_get_type (J.json_object_new_string s) ≡ json_type_string
  pub get_int-int : (n : ℕ) → n < 2 ^ 31 → J.json_object_get_int (J.json_object_new_int n) ≡ n
  pub get_uint64-int : (n : ℕ) → n < 2 ^ 31 → J.json_object_get_uint64 (J.json_object_new_int n) ≡ n
  pub get_uint64-uint64 :
      (n : ℕ) → n < 2 ^ 64 → J.json_object_get_uint64 (J.json_object_new_uint64 n) ≡ n
  pub get_uint64-int64 :
      (n : ℕ) → n < 2 ^ 63 → J.json_object_get_uint64 (J.json_object_new_int64 n) ≡ n
  pub get_int64-int64 :
      (n : ℕ) → n < 2 ^ 63 → J.json_object_get_int64 (J.json_object_new_int64 n) ≡ n
  pub get_double-double : (r : J.Real) → J.json_object_get_double (J.json_object_new_double r) ≡ r
  pub get_boolean-boolean : (b : Bool) → J.json_object_get_boolean (J.json_object_new_boolean b) ≡ b
  pub get_string-string : (s : String) → J.json_object_get_string (J.json_object_new_string s) ≡ s

-- Files: writing and removing one leaves the others alone, a move that fails leaves all, and a file
-- that was written and moved is there and gives its object back.
pub record FilesAreLawful {W : Type 0} (J : Json) (sys : System J W) : Type 0 where
  pub write-other :
      (f g : String) (root : J.Object) (w : W)
      → f ≢ g
      → sys.json_object_from_file (sys.json_object_to_file f root w).1 g
        ≡ sys.json_object_from_file w g
  pub rename-fails :
      (f g h : String) (w : W)
      → (sys.rename f g w).0 ≡ false
      → sys.json_object_from_file (sys.rename f g w).1 h ≡ sys.json_object_from_file w h
  pub unlink-other :
      (f g : String) (w : W)
      → f ≢ g
      → sys.json_object_from_file (sys.unlink f w) g ≡ sys.json_object_from_file w g
  pub write-rename :
      (f g : String) (root : J.Object) (w : W)
      → (sys.json_object_to_file f root w).0 ≡ true
      → (sys.rename f g (sys.json_object_to_file f root w).1).0 ≡ true
      → sys.json_object_from_file (sys.rename f g (sys.json_object_to_file f root w).1).1 g
        ≡ some root
  pub stat-rename :
      (f g : String) (w : W) → (sys.rename f g w).0 ≡ true → sys.stat (sys.rename f g w).1 g ≡ none
