-- ===== src/State/Saved.antt =====
-- What save_state leaves in the state file.
use Prim.Native.String.{String, ◌++◌, count}
use text.Mathlib.TextLemmas.{length-append}
use mfst.Common.{
  ◌+◌, subst, ◌≡◌, ◌≢◌, refl, sym, ap, ◌∙◌, ◌⊎◌, inl, inr, Bool, true, false, Option, none, some,
  arith,
}
use mfst.State.Json.{Json, System}
use mfst.State.Laws.{FilesAreLawful}
use mfst.State.Save.{
  Program, after_rename, after_write, write_root, save_to, state_root, write_state, save_state,
}

append_ne : (s : String) → (s ++ ".temp") ≢ s
append_ne s e =
    let longer : count (s ++ ".temp") ≡ count s + 5 = length-append s ".temp" in
    let same : count (s ++ ".temp") ≡ count s = ap count e in absurd (omega (arith, longer, same))

module _ {W : Type 0} (J : Json) (sys : System J W) (laws : FilesAreLawful J sys) where
  -- The two outcomes: the file is as it was, or it holds the object.
  abbrev pub Written : String → W → J.Object → Bool × W → Type 0
  Written f w root r =
      ((r.0 ≡ false) × (sys.json_object_from_file r.1 f ≡ sys.json_object_from_file w f))
      ⊎ ((r.0 ≡ true) × ((sys.stat r.1 f ≡ none) × (sys.json_object_from_file r.1 f ≡ some root)))

  write_state-Written :
      (f : String) (root : J.Object) (w : W) → Written f w root (write_state J sys f root w)
  unfolding write_state
  write_state-Written f root w = written (sys.json_object_to_file temp root w).0 refl
    where
      temp : String
      temp = f ++ ".temp"

      w1 : W
      w1 = (sys.json_object_to_file temp root w).1

      w2 : W
      w2 = (sys.rename temp f w1).1

      kept : sys.json_object_from_file w1 f ≡ sys.json_object_from_file w f
      kept = laws.write-other temp f root w (append_ne f)

      renamed :
          (sys.json_object_to_file temp root w).0 ≡ true
          → (b : Bool) → (sys.rename temp f w1).0 ≡ b
          → Written f w root (after_rename J sys temp b w2)
      renamed e false e' = inl (
        refl,
        laws.unlink-other temp f w2 (append_ne f) ∙ laws.rename-fails temp f f w1 e' ∙ kept,
      )
      renamed e true e' =
          inr (refl, (laws.stat-rename temp f w1 e', laws.write-rename temp f root w e e'))

      written :
          (b : Bool)
          → (sys.json_object_to_file temp root w).0 ≡ b
          → Written f w root (after_write J sys temp f b w1)
      written false e = inl (refl, kept)
      written true e = renamed e (sys.rename temp f w1).0 refl

  -- The file is as it was, or it holds the whole JSON of the state.
  abbrev pub Atomic : Program J → W → String → Bool × W → Type 0
  Atomic p w f r =
      ((r.0 ≡ false) × (sys.json_object_from_file r.1 f ≡ sys.json_object_from_file w f))
      ⊎ ((r.0 ≡ true)
          × ((root : J.Object) × ((state_root J sys w p ≡ some root)
                × ((sys.stat r.1 f ≡ none) × (sys.json_object_from_file r.1 f ≡ some root)))))

  -- Either save_state fails and the state file is as it was before, or it succeeds and the file
  -- holds the whole JSON of the state, for any outcome of its calls; the file system keeps its
  -- laws.
  pub save_state-Atomic :
      (p : Program J) (w : W) (f : String)
      → p.program_options.state_file ≡ some f
      → Atomic p w f (save_state J sys p w)
  unfolding save_state
  save_state-Atomic p w f e =
      subst (Atomic p w f) (ap (λ o. save_to J sys p o w) (sym e)) (go (state_root J sys w p) refl)
    where
      go :
          (o : Option (J.Object)) → state_root J sys w p ≡ o → Atomic p w f (write_root J sys f o w)
      go none e = inl (refl, refl)
      go (some root) e = elim (write_state-Written f root w) [
        | inl h ↦ inl h
        | inr h ↦ inr (h.0, (root, (e, h.1)))
      ]
