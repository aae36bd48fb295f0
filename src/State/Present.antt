-- ===== src/State/Present.antt =====
-- Steps of the last loop of load_state: a property that is present, or may be missing.
use Prim.Native.String.{String}
use mfst.Common.{
  ℕ, ◌^◌, ◌<◌, ◌≡◌, refl, ap, ◌∙◌, ◌⊎◌, inl, inr, false, arith, true, false, Option, none, some,
  List, [], ◌∷◌, if◌then◌else◌, ◌==◌,
}
use mfst.Context.{unset}
use mfst.State.Content.{map_some, reached}
use mfst.State.Json.{Json, System, JsonType, json_type_int, json_type_string, json_type_double}
use mfst.State.Laws.{JsonIsLawful}
use mfst.State.Schema.{Pointer, path}
use mfst.State.Validate.{Found}
use mfst.State.Noted.{fold_with, Milestone}
use mfst.State.Checked.{reached-unset, reached-some}
use mfst.State.Load.{Loaded, store, store_present, populate}
use mfst.State.Validate.{is_null}

module _ {W : Type 0} (J : Json) (sys : System J W) (laws : JsonIsLawful J) where
  pub populate-fold :
      (root : J.Object) (found : Found) (f : Pointer → Loaded J → Loaded J)
      → ((q : Pointer) (l : Loaded J)
          → store_present J sys found q (J.json_pointer_get root (path q)) l ≡ f q l)
      → (ps : List Pointer) (l : Loaded J) → populate J sys root found ps l ≡ fold_with f ps l
  unfolding populate
  populate-fold root found f h [] l = refl
  populate-fold root found f h (q ∷ ps) l =
      ap (populate J sys root found ps) (h q l) ∙ populate-fold root found f h ps (f q l)

  pub present :
      (found : Found) (q : Pointer) (obj : J.Object) (l : Loaded J) (t : JsonType)
      → J.json_object_get_type obj ≡ t
      → is_null t ≡ false
      → store_present J sys found q (some obj) l ≡ store J sys found q obj l
  present found q obj l t e h =
      ap (λ t. if is_null t then l else store J sys found q obj l) e
      ∙ ap (λ b. if b then l else store J sys found q obj l) h

  -- A number of each kind, which `store` passes to `f`
  module _ (found : Found) (q : Pointer) (n : ℕ) (l : Loaded J) (f : ℕ → Loaded J) where
    pub present-int :
        n < 2 ^ 31
        → store J sys found q (J.json_object_new_int n) l
          ≡ f (J.json_object_get_int (J.json_object_new_int n))
        → store_present J sys found q (some (J.json_object_new_int n)) l ≡ f n
    present-int lt e =
        present found q (J.json_object_new_int n) l json_type_int (laws.type-int n) refl
        ∙ e
        ∙ ap f (laws.get_int-int n lt)

    pub present-uint64 :
        n < 2 ^ 64
        → store J sys found q (J.json_object_new_uint64 n) l
          ≡ f (J.json_object_get_uint64 (J.json_object_new_uint64 n))
        → store_present J sys found q (some (J.json_object_new_uint64 n)) l ≡ f n
    present-uint64 lt e =
        present found q (J.json_object_new_uint64 n) l json_type_int (laws.type-uint64 n) refl
        ∙ e
        ∙ ap f (laws.get_uint64-uint64 n lt)

    pub present-round :
        n < 2 ^ 63
        → (store J sys found q (J.json_object_new_int64 n) l
            ≡ f (J.json_object_get_uint64 (J.json_object_new_int64 n)))
          ⊎ (store J sys found q (J.json_object_new_int64 n) l
              ≡ f (J.json_object_get_int64 (J.json_object_new_int64 n)))
        → store_present J sys found q (some (J.json_object_new_int64 n)) l ≡ f n
    present-round lt (inl e) =
        present found q (J.json_object_new_int64 n) l json_type_int (laws.type-int64 n) refl
        ∙ e
        ∙ ap f (laws.get_uint64-int64 n lt)
    present-round lt (inr e) =
        present found q (J.json_object_new_int64 n) l json_type_int (laws.type-int64 n) refl
        ∙ e
        ∙ ap f (laws.get_int64-int64 n lt)

  pub present-double :
      (found : Found) (q : Pointer) (r : J.Real) (l : Loaded J) (f : J.Real → Loaded J)
      → store J sys found q (J.json_object_new_double r) l
        ≡ f (J.json_object_get_double (J.json_object_new_double r))
      → store_present J sys found q (some (J.json_object_new_double r)) l ≡ f r
  present-double found q r l f e =
      present found q (J.json_object_new_double r) l json_type_double (laws.type-double r) refl
      ∙ e
      ∙ ap f (laws.get_double-double r)

  -- A name that may be missing: `store` takes it from what was noted.
  pub present-name :
      (found : Found) (q : Pointer) (o : Option String) (l : Loaded J)
      → (f g : Option String → Loaded J) → found.strings q ≡ o
      → l ≡ g none
      → ((s : String) → store J sys found q (J.json_object_new_string s) l ≡ f (found.strings q))
      → ((s : String) → f (some s) ≡ g (some s))
      → store_present J sys found q (map_some J.json_object_new_string o) l ≡ g o
  present-name found q none l f g h absent there e = absent
  present-name found q (some s) l f g h absent there e =
      present found q (J.json_object_new_string s) l json_type_string (laws.type-string s) refl
      ∙ there s
      ∙ ap f h
      ∙ e s

  -- A milestone that may not have been reached: `old` stays then.
  pub present-Milestone :
      (found : Found) (q : Pointer) (n old : ℕ) (w : W) (l : Loaded J) (f : ℕ → Loaded J)
      → Milestone n
      → l ≡ f old
      → (store J sys found q (J.json_object_new_int64 n) l
          ≡ f (J.json_object_get_uint64 (J.json_object_new_int64 n)))
        ⊎ (store J sys found q (J.json_object_new_int64 n) l
            ≡ f (J.json_object_get_int64 (J.json_object_new_int64 n)))
      → store_present J sys found q (reached J sys w n) l ≡ f (if n == unset then old else n)
  present-Milestone found q n old w l f (inl e) absent there =
      ap (λ o. store_present J sys found q o l) (reached-unset J sys laws w n e)
      ∙ absent
      ∙ ap (λ b. f (if b then old else n)) (let h : true ≡ (n == unset) = ground arith in h)
  present-Milestone found q n old w l f (inr h) absent there =
      ap (λ o. store_present J sys found q o l) (reached-some J sys laws w n (h.1))
      ∙ present-round found q n l f (h.1) there
      ∙ ap (λ b. f (if b then old else n))
          (let lt = h.1 in let e : false ≡ (n == unset) = ground arith in e)
