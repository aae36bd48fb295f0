-- ===== src/State/Lookup.antt =====
-- What an object holds after a list of fields has been added to it.
use Prim.Native.String.{String}
use text.Mathlib.Text.{◌==◌}
use mfst.Common.{
  ◌≡◌, refl, sym, ap, ◌∙◌, Bool, true, false, Option, none, some, List, [], ◌∷◌, and_then,
  if◌then◌else◌,
}
use mfst.Common.{◌++◌ as append}
use mfst.State.Json.{Json, System}
use mfst.State.Laws.{JsonIsLawful}
use mfst.State.Save.{add_all, add_parent}

pub and_then-some :
    {A B : Type 0} (o : Option A) (f : A → Option B) (b : B)
    → and_then o f ≡ some b
    → (a : A) × ((o ≡ some a) × (f a ≡ some b))
and_then-some none f b e = absurd (cc e)
and_then-some (some a) f b e = (a, (refl, e))

abbrev pub or_else : {A : Type 0} → Option A → Option A → Option A
or_else none o = o
or_else (some a) o = some a

pub or_else-none : {A : Type 0} (o : Option A) → or_else o none ≡ o
or_else-none none = refl
or_else-none (some a) = refl

or_else_assoc : {A : Type 0} (a b c : Option A) → or_else (or_else a b) c ≡ or_else a (or_else b c)
or_else_assoc none b c = refl
or_else_assoc (some a) b c = refl

-- The value of the last field with the key.
abbrev pub field : {A : Type 0} → String → List (String × A) → Option A
field j [] = none
field j ((k, v) ∷ rest) = or_else (field j rest) (if j == k then some v else none)

pub field-append :
    {A : Type 0} (j : String) (xs ys : List (String × A))
    → field j (append xs ys) ≡ or_else (field j ys) (field j xs)
field-append j [] ys = sym (or_else-none (field j ys))
field-append j ((k, v) ∷ xs) ys =
    ap (λ o. or_else o (if j == k then some v else none)) (field-append j xs ys)
    ∙ or_else_assoc (field j ys) (field j xs) (if j == k then some v else none)

if-or_else :
    {A : Type 0} (b : Bool) (v : A) (rest : Option A)
    → (if b then some v else rest) ≡ or_else (if b then some v else none) rest
if-or_else true v rest = refl
if-or_else false v rest = refl

module _ {W : Type 0} (J : Json) (sys : System J W) (laws : JsonIsLawful J) where
  get-add_all :
      (fields : List (String × J.Object)) (o o' : J.Object) (j : String)
      → add_all J sys o fields ≡ some o'
      → J.json_pointer_get o' (j ∷ []) ≡ or_else (field j fields) (J.json_pointer_get o (j ∷ []))
  unfolding add_all
  get-add_all [] o o' j e = ap (λ x. J.json_pointer_get x (j ∷ [])) (let h : o' ≡ o = cc e in h)
  get-add_all ((k, v) ∷ rest) o o' j e =
      let h = and_then-some (J.json_object_object_add o k v) (λ o'. add_all J sys o' rest) o' e in
      get-add_all rest (h.0) o' j (h.1.1)
      ∙ ap (or_else (field j rest)) (
          laws.get-add o (h.0) v k j [] (h.1.0)
          ∙ ap (λ x. if j == k then x else J.json_pointer_get o (j ∷ [])) (laws.get-root v)
          ∙ if-or_else (j == k) v (J.json_pointer_get o (j ∷ [])))
      ∙ sym (
          or_else_assoc (field j rest) (if j == k then some v else none)
            (J.json_pointer_get o (j ∷ [])))

  pub get-new_all :
      (fields : List (String × J.Object)) (o : J.Object) (j : String)
      → add_all J sys J.json_object_new_object fields ≡ some o
      → J.json_pointer_get o (j ∷ []) ≡ field j fields
  get-new_all fields o j e =
      get-add_all fields J.json_object_new_object o j e
      ∙ ap (or_else (field j fields)) (laws.get-new j [])
      ∙ or_else-none (field j fields)

  module _ (key : String) (fields : List (String × J.Object)) (root root' : J.Object) where
    pub get-parent :
        (j : String)
        → (key == key) ≡ true
        → add_parent J sys key fields root ≡ some root'
        → J.json_pointer_get root' (key ∷ j ∷ []) ≡ field j fields
    unfolding add_parent
    get-parent j same e =
        let h =
          and_then-some (add_all J sys J.json_object_new_object fields)
            (λ parent. J.json_object_object_add root key parent) root' e in
        laws.get-add root root' (h.0) key key (j ∷ []) (h.1.1)
        ∙ ap
            (λ b.
              if b
              then J.json_pointer_get (h.0) (j ∷ [])
              else J.json_pointer_get root (key ∷ j ∷ []))
            same
        ∙ get-new_all fields (h.0) j (h.1.0)

    pub get-other :
        (j : String) (path : List String)
        → (j == key) ≡ false
        → add_parent J sys key fields root ≡ some root'
        → J.json_pointer_get root' (j ∷ path) ≡ J.json_pointer_get root (j ∷ path)
    unfolding add_parent
    get-other j path differ e =
        let h =
          and_then-some (add_all J sys J.json_object_new_object fields)
            (λ parent. J.json_object_object_add root key parent) root' e in
        laws.get-add root root' (h.0) key j path (h.1.1)
        ∙ ap (λ b. if b then J.json_pointer_get (h.0) path else J.json_pointer_get root (j ∷ path))
            differ
