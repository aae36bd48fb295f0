-- ===== src/State/Fields.antt =====
-- The fields that save_state adds only sometimes, looked up by key.
use Prim.Native.String.{String}
use text.Mathlib.Text.{◌==◌}
use mfst.Common.{
  ℕ, ◌≡◌, refl, ap, ◌∙◌, Bool, true, false, Option, none, some, List, [], ◌∷◌, if◌then◌else◌,
}
use mfst.Common.{◌==◌ as same}
use mfst.Context.{unset}
use mfst.Options.{ProgramOptions}
use mfst.State.Json.{Json, System}
use mfst.State.Lookup.{field}
use mfst.State.Save.{string_field, file_field, lock_field, interval_field, milestone_field}
use mfst.State.Content.{map_some, real_path, reached}

module _ {W : Type 0} (J : Json) (sys : System J W) (w : W) where
  if_same : {A : Type 0} (b : Bool) (a : A) → a ≡ (if b then a else a)
  if_same true a = refl
  if_same false a = refl

  field-string :
      (j key : String) (s : Option String) (fields : List (String × J.Object))
      → string_field J sys key s ≡ some fields
      → field j fields ≡ (if j == key then map_some J.json_object_new_string s else none)
  field-string j key none fields e = absurd (cc e)
  field-string j key (some s) fields e =
      ap (field j) (let h : fields ≡ (key, J.json_object_new_string s) ∷ [] = cc e in h)

  module _ (j : String) where
    -- One kind of optional field
    pub field-file_field :
        (key : String) (name : Option String) (fields : List (String × J.Object))
        → file_field J sys w key name ≡ some fields
        → field j fields
          ≡ (if j == key then map_some J.json_object_new_string (real_path J sys w name) else none)
    field-file_field key none fields e =
        ap (field j) (let h : fields ≡ [] = cc e in h) ∙ if_same (j == key) none
    field-file_field key (some name) fields e = field-string j key (sys.realpath w name) fields e

    pub field-lock_field :
        (name : Option String) (fields : List (String × J.Object))
        → lock_field J sys w name ≡ some fields
        → field j fields ≡ (
            if j == "lock_file"
            then map_some J.json_object_new_string (real_path J sys w name)
            else none)
    field-lock_field none fields e = absurd (cc e)
    field-lock_field (some name) fields e =
        field-string j "lock_file" (sys.realpath w name) fields e

    pub field-interval_field :
        (options : ProgramOptions)
        → field j (interval_field J sys options) ≡ (
            if j == "stats_interval"
            then map_some
                (λ name. J.json_object_new_uint64 options.stats_interval)
                options.stats_file
            else none)
    field-interval_field options = go options.stats_file
      where
        v : J.Object
        v = J.json_object_new_uint64 options.stats_interval

        go :
            (o : Option String)
            → field j (elim o [ none ↦ [] | some name ↦ ("stats_interval", v) ∷ [] ])
              ≡ (if j == "stats_interval" then map_some (λ name. v) o else none)
        go none = if_same (j == "stats_interval") none
        go (some name) = refl

    pub field-milestone_field :
        (key : String) (rounds : ℕ)
        → field j (milestone_field J sys key rounds)
          ≡ (if j == key then reached J sys w rounds else none)
    field-milestone_field key rounds = go (same rounds unset)
      where
        v : J.Object
        v = J.json_object_new_int64 rounds

        go :
            (b : Bool)
            → field j (if b then [] else (key, v) ∷ [])
              ≡ (if j == key then if b then none else some v else none)
        go true = if_same (j == key) none
        go false = refl
