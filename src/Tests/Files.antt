-- ===== src/Tests/Files.antt =====
-- A small JSON library and file system to run state.c on. Numbers in base64 texts are written in
-- unary: `a` for one, `b` for the end.
use Prim.Native.Char.{code}
use Prim.Native.String.{String}
use text.Mathlib.Text.{◌==◌}
use text.Mathlib.TextEquality.{eq_iff}
use text.Mathlib.TextPositions.{eq_refl}
use mfst.Common.{
  ℕ, zero, suc, ◌+◌, ◌≡◌, ◌≢◌, refl, sym, ap, ap₂, ◌∙◌, arith, Bool, true, false, Option, none,
  some, List, [], ◌∷◌, Bool-cases, inl, inr, ltb, if◌then◌else◌, replicate, length-replicate,
}
use mfst.Common.{◌==◌ as same}
use mfst.Device.{Errno, enoent}
use mfst.State.Json.{
  Json, System, JsonType, json_type_boolean, json_type_double, json_type_int, json_type_object,
  json_type_string,
}
use mfst.State.Laws.{JsonIsLawful, FilesAreLawful}
use mfst.State.Noted.{Works}

pub data Value : Type 0 where
  empty : Value
  member : String → Value → Value → Value
  number : ℕ → Value
  real : ℕ → Value
  flag : Bool → Value
  words : String → Value

abbrev choose : {A : Type 0} → Bool → A → A → A
choose true a b = a
choose false a b = b

abbrev pub get : Value → List String → Option Value
get v [] = some v
get (member k v o) (j ∷ path) = if j == k then get v path else get o (j ∷ path)
get _ (j ∷ path) = none

abbrev type_of : Value → JsonType
type_of empty = json_type_object
type_of (member k v o) = json_type_object
type_of (number n) = json_type_int
type_of (real r) = json_type_double
type_of (flag b) = json_type_boolean
type_of (words s) = json_type_string

abbrev number_of : Value → ℕ
number_of (number n) = n
number_of _ = 0

abbrev real_of : Value → ℕ
real_of (real r) = r
real_of _ = 0

abbrev flag_of : Value → Bool
flag_of (flag b) = b
flag_of _ = false

abbrev text_of : Value → String
text_of (words s) = s
text_of _ = ""

abbrev pub test_json : Json
test_json = record {
  Object = Value;
  Real = ℕ;
  json_object_new_object = empty;
  json_object_new_int = number;
  json_object_new_int64 = number;
  json_object_new_uint64 = number;
  json_object_new_double = real;
  json_object_new_boolean = flag;
  json_object_new_string = words;
  json_object_object_add = λ o k v. some (member k v o);
  json_pointer_get = get;
  json_object_get_type = type_of;
  json_object_get_int = number_of;
  json_object_get_int64 = number_of;
  json_object_get_uint64 = number_of;
  json_object_get_double = real_of;
  json_object_get_boolean = flag_of;
  json_object_get_string = text_of;
  is_positive = λ r. ltb 0 r;
}

pub test_json-lawful : JsonIsLawful test_json
test_json-lawful = record {
  get-new = λ j path. refl;
  get-root = λ o. refl;
  get-add = λ o o' v k j path e. ap (λ x. get x (j ∷ path)) (let h : o' ≡ member k v o = cc e in h);
  type-int = λ n. refl;
  type-int64 = λ n. refl;
  type-uint64 = λ n. refl;
  type-double = λ r. refl;
  type-boolean = λ b. refl;
  type-string = λ s. refl;
  get_int-int = λ n lt. refl;
  get_uint64-int = λ n lt. refl;
  get_uint64-uint64 = λ n lt. refl;
  get_uint64-int64 = λ n lt. refl;
  get_int64-int64 = λ n lt. refl;
  get_double-double = λ r. refl;
  get_boolean-boolean = λ b. refl;
  get_string-string = λ s. refl;
}

abbrev units : ℕ → String → String
units zero s = s
units (suc n) s = String.◌∷◌ "a" (units n s)

unfoldable pub encode : List ℕ → String
encode [] = ""
encode (n ∷ ns) = units n (String.◌∷◌ "b" (encode ns))

abbrev decode_step : ℕ → ℕ → (ℕ → List ℕ) → List ℕ
decode_step c n rest = if same c 97 then rest (n + 1) else n ∷ rest 0

unfoldable pub decode : String → ℕ → List ℕ
decode String.[] n = []
decode (String.◌∷◌ c s) n = decode_step (code c) n (decode s)

decode-units : (n m : ℕ) (s : String) → decode (units n s) m ≡ decode s (m + n)
unfolding decode
decode-units zero m s = ap (decode s) (let h : m ≡ m + 0 = omega arith in h)
decode-units (suc n) m s =
    decode-units n (m + 1) s ∙ ap (decode s) (let h : m + 1 + n ≡ m + suc n = omega arith in h)

decode-encode : (ns : List ℕ) → decode (encode ns) 0 ≡ ns
unfolding encode decode
decode-encode [] = refl
decode-encode (n ∷ ns) =
    decode-units n 0 (String.◌∷◌ "b" (encode ns))
    ∙ ap₂ ◌∷◌ (let h : 0 + n ≡ n = omega arith in h) (decode-encode ns)

-- The files, the last written first; `none` is a file that was removed.
abbrev pub Files : Type 0
Files = List (String × Option Value)

abbrev pub content_of : String → Files → Option Value
content_of f [] = none
content_of f ((g, v) ∷ rest) = if f == g then v else content_of f rest

abbrev stat_of : Option Value → Option Errno
stat_of none = some enoent
stat_of (some v) = none

abbrev rename_to : String → String → Files → Option Value → Bool × Files
rename_to f g w none = (false, w)
rename_to f g w (some v) = (true, (g, some v) ∷ (f, none) ∷ w)

abbrev pub test_system : System test_json Files
test_system = record {
  realpath = λ w s. some s;
  stat = λ w f. stat_of (content_of f w);
  json_object_from_file = λ w f. content_of f w;
  json_object_to_file = λ f root w. (true, (f, some root) ∷ w);
  rename = λ f g w. rename_to f g w (content_of f w);
  unlink = λ f w. (f, none) ∷ w;
  malloc = λ w n. some (replicate n 0);
  strdup = λ w s. some s;
  base64_encode = λ w bytes. some (encode bytes);
  base64_decode = λ w s. some (decode s 0);
  uuid_unparse = encode;
  uuid_parse = λ s. some (decode s 0);
}

other :
    (f g : String) (v : Option Value) (w : Files)
    → f ≢ g
    → content_of g ((f, v) ∷ w) ≡ content_of g w
other f g v w ne = elim (Bool-cases (g == f)) [
  | inl e ↦ absurd (ne (sym ((eq_iff g f).0 e)))
  | inr e ↦ ap (λ b. if b then v else content_of g w) e
]

self : (f : String) (v : Option Value) (w : Files) → content_of f ((f, v) ∷ w) ≡ v
self f v w = ap (λ b. if b then v else content_of f w) (eq_refl f)

rename-fails :
    (f g h : String) (w : Files) (o : Option Value)
    → (rename_to f g w o).0 ≡ false
    → content_of h (rename_to f g w o).1 ≡ content_of h w
rename-fails f g h w none e = refl
rename-fails f g h w (some v) e = absurd (cc e)

stat-rename :
    (f g : String) (w : Files) (o : Option Value)
    → (rename_to f g w o).0 ≡ true
    → stat_of (content_of g (rename_to f g w o).1) ≡ none
stat-rename f g w none e = absurd (cc e)
stat-rename f g w (some v) e = ap stat_of (self g (some v) ((f, none) ∷ w))

write-rename :
    (f g : String) (root : Value) (w : Files)
    → content_of g (rename_to f g ((f, some root) ∷ w) (content_of f ((f, some root) ∷ w))).1
      ≡ some root
write-rename f g root w =
    ap (λ o. content_of g (rename_to f g ((f, some root) ∷ w) o).1) (self f (some root) w)
    ∙ self g (some root) ((f, none) ∷ (f, some root) ∷ w)

pub test_files-lawful : FilesAreLawful test_json test_system
test_files-lawful = record {
  write-other = λ f g root w ne. other f g (some root) w ne;
  rename-fails = λ f g h w e. rename-fails f g h w (content_of f w) e;
  unlink-other = λ f g w ne. other f g none w ne;
  write-rename = λ f g root w e e'. write-rename f g root w;
  stat-rename = λ f g w e. stat-rename f g w (content_of f w) e;
}

pub test_system-Works : (w : Files) → Works test_json test_system w
test_system-Works w = record {
  strdup-some = λ s. refl;
  malloc-some = λ n. (replicate n 0, (refl, length-replicate n 0));
  decode-encode = λ v bytes s e.
      ap (λ x. some (decode x 0)) (let h : s ≡ encode bytes = cc e in h)
      ∙ ap some (decode-encode bytes);
  parse-unparse = λ u e. ap some (decode-encode u);
}
