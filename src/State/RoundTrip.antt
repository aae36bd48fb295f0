-- ===== src/State/RoundTrip.antt =====
-- Loading the state that has been saved.
use Prim.Native.String.{String}
use mfst.Common.{◌≡◌, sym, ap, ◌∙◌, inl, inr, true, false, some}
use mfst.State.Json.{Json, System}
use mfst.State.Laws.{JsonIsLawful, FilesAreLawful}
use mfst.State.Load.{load_state_success, load_file, load_named, load_from, load_state}
use mfst.State.Noted.{IsLoadable, Works}
use mfst.State.Restoring.{IsSized, restored, load_root-restored}
use mfst.State.Save.{Program, save_state}
use mfst.State.Saved.{Atomic, save_state-Atomic}
use mfst.State.Validate.{Stack}

module _ {W : Type 0} (J : Json) (sys : System J W) (laws : JsonIsLawful J)
    (files : FilesAreLawful J sys) where
  -- When save_state has written the state of a program, load_state succeeds on that file and gives
  -- any program with the same state file exactly the saved device information, copies of the
  -- beginning and the middle, speeds, counters and options, the milestones that had been reached,
  -- and the sector map with each entry packed and unpacked, and leaves the rest of it alone; the
  -- saved numbers are positive and fit their types, the saved buffers have their sizes, memory
  -- does not run out, and the JSON library and the file system keep their laws.
  pub load_state-save_state :
      (p q : Program J) (w : W) (f : String) (stack : Stack)
      → p.program_options.state_file ≡ some f
      → q.program_options.state_file ≡ some f
      → IsLoadable J p
      → IsSized J p
      → Works J sys (save_state J sys p w).1
      → (save_state J sys p w).0 ≡ true
      → load_state J sys (save_state J sys p w).1 stack q
        ≡ (load_state_success, restored J sys w p q)
  unfolding load_state
  load_state-save_state p q w f stack pf qf loadable sized works ok =
      let w' = (save_state J sys p w).1 in
      ap (λ o. load_from J sys w' stack o q) qf ∙ go (save_state-Atomic J sys files p w f pf)
    where
      w' : W
      w' = (save_state J sys p w).1

      go :
          Atomic J sys files p w f (save_state J sys p w)
          → load_from J sys w' stack (some f) q ≡ (load_state_success, restored J sys w p q)
      go (inl h) = let clash : false ≡ true = sym (h.0) ∙ ok in absurd (cc clash)
      go (inr (yes_saved, (root, (made, (there, read))))) =
          ap (λ o. load_named J sys w' stack f o q) there
          ∙ ap (λ o. load_file J sys w' stack o q) read
          ∙ load_root-restored J sys laws w w' works p loadable sized root made stack q
