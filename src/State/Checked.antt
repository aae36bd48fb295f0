-- ===== src/State/Checked.antt =====
-- Every property of the JSON that save_state wrote passes the validation of load_state.
use Prim.Native.String.{String}
use mfst.Common.{
  ℕ, ◌^◌, ◌<◌, ◌≡◌, refl, ap, ap₂, ◌∙◌, inl, inr, arith, true, false, Option, none, some, List, [],
  ◌∷◌, and_then, if◌then◌else◌, ◌==◌,
}
use mfst.Context.{unset}
use mfst.State.Content.{map_some, reached}
use mfst.State.Json.{Json, System, json_type_int, json_type_double, json_type_string}
use mfst.State.Laws.{JsonIsLawful}
use mfst.State.Schema.{Pointer, path, prop_types, required_props, base64_props, put}
use mfst.State.Validate.{
  Found, check_prop, check_typed, check_decoded, check_copy, check_string, remember, validate,
}
use mfst.State.Noted.{fold_with, Milestone, Works, put_some}

module _ {W : Type 0} (J : Json) (sys : System J W) (laws : JsonIsLawful J) (w : W) where
  pub validate-fold :
      (root : J.Object) (f : Pointer → Found → Found)
      → ((q : Pointer) (found : Found)
          → check_prop J sys w q (J.json_pointer_get root (path q)) found ≡ some (f q found))
      → (ps : List Pointer) (found : Found)
      → validate J sys w root ps found ≡ some (fold_with f ps found)
  unfolding validate
  validate-fold root f h [] found = refl
  validate-fold root f h (q ∷ ps) found =
      ap (λ o. and_then o λ found'. validate J sys w root ps found') (h q found)
      ∙ validate-fold root f h ps (f q found)

  pub check-int :
      (q : Pointer) (obj : J.Object) (n : ℕ) (found : Found)
      → prop_types q ≡ json_type_int
      → J.json_object_get_type obj ≡ json_type_int
      → J.json_object_get_uint64 obj ≡ n
      → 0 < n
      → check_prop J sys w q (some obj) found ≡ some (remember J sys q obj found)
  check-int q obj n found is_int type value lt =
      ap₂ (λ x y. check_typed J sys w q x y obj found) is_int type
      ∙ ap (λ b. if b then none else some (remember J sys q obj found))
          (ap (λ x. x == 0) value ∙ nonzero)
    where
      nonzero : (n == 0) ≡ false
      nonzero = ground arith

  pub check-double :
      (q : Pointer) (r : J.Real) (found : Found)
      → prop_types q ≡ json_type_double
      → J.is_positive r ≡ true
      → check_prop J sys w q (some (J.json_object_new_double r)) found
        ≡ some (remember J sys q (J.json_object_new_double r) found)
  check-double q r found is_double positive =
      let obj = J.json_object_new_double r in
      ap₂ (λ x y. check_typed J sys w q x y obj found) is_double (laws.type-double r)
      ∙ ap (λ x. if J.is_positive x then some (remember J sys q obj found) else none)
          (laws.get_double-double r)
      ∙ ap (λ b. if b then some (remember J sys q obj found) else none) positive

  pub check-text :
      (works : Works J sys w) (q : Pointer) (s : String) (found : Found)
      → prop_types q ≡ json_type_string
      → check_prop J sys w q (some (J.json_object_new_string s)) found
        ≡ check_string J sys w q (some s) found
  check-text works q s found is_string =
      let obj = J.json_object_new_string s in
      ap₂ (λ x y. check_typed J sys w q x y obj found) is_string (laws.type-string s)
      ∙ ap (λ x. check_string J sys w q (sys.strdup w x) found) (laws.get_string-string s)
      ∙ ap (λ o. check_string J sys w q o found) (works.strdup-some s)

  pub reached-unset : (n : ℕ) → n ≡ unset → reached J sys w n ≡ none
  reached-unset n e =
      ap (λ b. if b then none else some (J.json_object_new_int64 n))
        (let h : (n == unset) ≡ true = ground arith in h)

  pub reached-some : (n : ℕ) → n < 2 ^ 63 → reached J sys w n ≡ some (J.json_object_new_int64 n)
  reached-some n lt =
      ap (λ b. if b then none else some (J.json_object_new_int64 n))
        (let h : (n == unset) ≡ false = ground arith in h)

  pub check-Milestone :
      (q : Pointer) (n : ℕ) (found : Found)
      → prop_types q ≡ json_type_int
      → required_props q ≡ false
      → ((obj : J.Object) → remember J sys q obj found ≡ found)
      → Milestone n
      → check_prop J sys w q (reached J sys w n) found ≡ some found
  check-Milestone q n found is_int optional same (inl e) =
      ap (λ o. check_prop J sys w q o found) (reached-unset n e)
      ∙ ap (λ b. if b then none else some found) optional
  check-Milestone q n found is_int optional same (inr h) =
      let obj = J.json_object_new_int64 n in
      ap (λ o. check_prop J sys w q o found) (reached-some n (h.1))
      ∙ check-int q obj n found is_int (laws.type-int64 n) (laws.get_uint64-int64 n (h.1)) (h.0)
      ∙ ap some (same obj)

  module _ (works : Works J sys w) (v : W) where
    pub check-base64 :
        (q : Pointer) (bytes : List ℕ) (found : Found)
        → prop_types q ≡ json_type_string
        → base64_props q ≡ true
        → ((s : String) × (sys.base64_encode v bytes ≡ some s))
        → check_prop J sys w q (map_some J.json_object_new_string (sys.base64_encode v bytes)) found
          ≡ some (record found { decoded = put found.decoded q bytes })
    check-base64 q bytes found is_string is_base64 (s, e) =
        ap (λ o. check_prop J sys w q (map_some J.json_object_new_string o) found) e
        ∙ check-text works q s found is_string
        ∙ ap (λ b. check_copy J sys w q b s found) is_base64
        ∙ ap (λ o. check_decoded J sys q o found) (works.decode-encode v bytes s e)

    pub check-optional :
        (q : Pointer) (o : Option String) (found : Found)
        → prop_types q ≡ json_type_string
        → base64_props q ≡ false
        → required_props q ≡ false
        → check_prop J sys w q (map_some J.json_object_new_string o) found
          ≡ some (record found { strings = put_some found.strings q o })
    check-optional q none found is_string plain optional =
        ap (λ b. if b then none else some found) optional
    check-optional q (some s) found is_string plain optional =
        check-text works q s found is_string ∙ ap (λ b. check_copy J sys w q b s found) plain
