-- ===== src/State/Errors.antt =====
-- What load_state leaves of the program when it does not succeed, and save_state of the files.
use Prim.Native.String.{String}
use mfst.Common.{
  ℕ, ◌/◌, ◌≡◌, ◌≢◌, refl, ◌⊎◌, inl, inr, Bool, true, false, Option, none, some, List, [],
}
use mfst.Device.{Errno}
use mfst.SectorMap.{with_map}
use mfst.State.Json.{Json, System}
use mfst.State.Load.{
  load_state_success, with_context, load_values, load_checked, load_found, load_root, load_file,
  load_named, load_from, load_state,
}
use mfst.State.Save.{Program}
use mfst.State.Schema.{all_props}
use mfst.State.Validate.{Stack, Found, nothing_found, validate, lengths_fit}

module _ {W : Type 0} (J : Json) (sys : System J W) (w : W) where
  load_values-error :
      (root : J.Object) (found : Found) (m : Option (List ℕ)) (q : Program J)
      → (load_values J sys root found m q).0 ≢ load_state_success
      → ((load_values J sys root found m q).1 ≡ q)
        ⊎ ((load_values J sys root found m q).1 ≡ with_context J sys (λ c. with_map c []) q)
  unfolding load_values
  load_values-error root found none q h = inr refl
  load_values-error root found (some m) q h = absurd (h refl)

  load_checked-error :
      (root : J.Object) (found : Found) (b : Bool) (q : Program J)
      → (load_checked J sys w root found b q).0 ≢ load_state_success
      → ((load_checked J sys w root found b q).1 ≡ q)
        ⊎ ((load_checked J sys w root found b q).1 ≡ with_context J sys (λ c. with_map c []) q)
  load_checked-error root found false q h = inl refl
  load_checked-error root found true q h =
      load_values-error root found (sys.malloc w (found.detected_size / found.sector_size)) q h

  load_found-error :
      (root : J.Object) (o : Option Found) (q : Program J)
      → (load_found J sys w root o q).0 ≢ load_state_success
      → ((load_found J sys w root o q).1 ≡ q)
        ⊎ ((load_found J sys w root o q).1 ≡ with_context J sys (λ c. with_map c []) q)
  load_found-error root none q h = inl refl
  load_found-error root (some found) q h =
      load_checked-error root found (lengths_fit found all_props) q h

  load_file-error :
      (stack : Stack) (o : Option (J.Object)) (q : Program J)
      → (load_file J sys w stack o q).0 ≢ load_state_success
      → ((load_file J sys w stack o q).1 ≡ q)
        ⊎ ((load_file J sys w stack o q).1 ≡ with_context J sys (λ c. with_map c []) q)
  unfolding load_root
  load_file-error stack none q h = inl refl
  load_file-error stack (some root) q h =
      load_found-error root (validate J sys w root all_props (nothing_found stack)) q h

  load_named-error :
      (stack : Stack) (state_file : String) (o : Option Errno) (q : Program J)
      → (load_named J sys w stack state_file o q).0 ≢ load_state_success
      → ((load_named J sys w stack state_file o q).1 ≡ q)
        ⊎ ((load_named J sys w stack state_file o q).1 ≡ with_context J sys (λ c. with_map c []) q)
  load_named-error stack state_file (some errno) q h = inl refl
  load_named-error stack state_file none q h =
      load_file-error stack (sys.json_object_from_file w state_file) q h

  -- When load_state does not succeed, the program is as it was before, or only its sector map has
  -- been emptied.
  pub load_state-error :
      (stack : Stack) (q : Program J)
      → (load_state J sys w stack q).0 ≢ load_state_success
      → ((load_state J sys w stack q).1 ≡ q)
        ⊎ ((load_state J sys w stack q).1 ≡ with_context J sys (λ c. with_map c []) q)
  unfolding load_state
  load_state-error stack q = go q.program_options.state_file
    where
      go :
          (o : Option String)
          → (load_from J sys w stack o q).0 ≢ load_state_success
          → ((load_from J sys w stack o q).1 ≡ q)
            ⊎ ((load_from J sys w stack o q).1 ≡ with_context J sys (λ c. with_map c []) q)
      go none h = inl refl
      go (some state_file) h = load_named-error stack state_file (sys.stat w state_file) q h
