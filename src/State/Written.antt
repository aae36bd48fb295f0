-- ===== src/State/Written.antt =====
-- The JSON that state_root makes holds the contents of the table.
use Prim.Native.String.{String}
use text.Mathlib.Text.{◌==◌}
use mfst.Common.{◌≡◌, refl, ap, ◌∙◌, false, some, List, [], ◌∷◌}
use mfst.State.Groups.{at, field-option_fields, field-milestones, field-state_fields}
use mfst.State.Json.{Json, System}
use mfst.State.Laws.{JsonIsLawful}
use mfst.State.Lookup.{
  and_then-some, or_else, or_else-none, field, get-new_all, get-parent, get-other,
}
use mfst.State.Save.{
  Program, add_all, add_parent, geometry_fields, device_fields, option_fields, state_fields,
  state_root,
}
use mfst.State.Content.{map_bytes, content}
use mfst.State.Schema.{
  Pointer, path, version_ptr, device_uuid_ptr, reported_size_ptr, detected_size_ptr,
  sector_size_ptr, block_size_ptr, sequential_read_speed_ptr, sequential_write_speed_ptr,
  random_read_iops_ptr, random_write_iops_ptr, disable_curses_ptr, stats_file_ptr, log_file_ptr,
  lock_file_ptr, stats_interval_ptr, sector_map_ptr, bod_data_ptr, mod_data_ptr,
  rounds_completed_ptr, bytes_read_ptr, bytes_written_ptr, ffr_ptr, poptr_ptr, optr_ptr, tpfr_ptr,
  tfpfr_ptr,
}

module _ {W : Type 0} (J : Json) (sys : System J W) (laws : JsonIsLawful J) (w : W) where
  module _ (p : Program J) (root : J.Object) (e : state_root J sys w p ≡ some root) where
    abbrev uuid : J.Object
    uuid = J.json_object_new_string (sys.uuid_unparse p.context.device_info.device_uuid)

    -- The objects on the way to the root
    record Steps : Type 0 where
      options : List (String × J.Object)
      state : List (String × J.Object)
      root0 : J.Object
      root1 : J.Object
      root2 : J.Object
      root3 : J.Object
      options_eq : option_fields J sys w p.program_options ≡ some options
      state_eq : state_fields J sys w p.context ≡ some state
      root0_eq :
          add_all J sys J.json_object_new_object
            (("version", J.json_object_new_int 2) ∷ ("device_uuid", uuid) ∷ [])
          ≡ some root0
      root1_eq :
          add_parent J sys "device_geometry" (geometry_fields J sys p.context) root0 ≡ some root1
      root2_eq : add_parent J sys "device_info" (device_fields J sys p) root1 ≡ some root2
      root3_eq : add_parent J sys "program_options" options root2 ≡ some root3
      root_eq : add_parent J sys "state" state root3 ≡ some root

    steps : Steps
    unfolding state_root
    steps =
        let a = and_then-some (option_fields J sys w p.program_options) _ root e in
        let b = and_then-some (state_fields J sys w p.context) _ root (a.1.1) in
        let c =
          and_then-some
            (add_all J sys J.json_object_new_object
              (("version", J.json_object_new_int 2) ∷ ("device_uuid", uuid) ∷ []))
            _ root (b.1.1) in
        let d =
          and_then-some (add_parent J sys "device_geometry" (geometry_fields J sys p.context) (c.0))
            _ root (c.1.1) in
        let f =
          and_then-some (add_parent J sys "device_info" (device_fields J sys p) (d.0)) _ root
            (d.1.1) in
        let g = and_then-some (add_parent J sys "program_options" (a.0) (f.0)) _ root (f.1.1) in
        record {
          options = a.0;
          state = b.0;
          root0 = c.0;
          root1 = d.0;
          root2 = f.0;
          root3 = g.0;
          options_eq = a.1.0;
          state_eq = b.1.0;
          root0_eq = c.1.0;
          root1_eq = d.1.0;
          root2_eq = f.1.0;
          root3_eq = g.1.0;
          root_eq = g.1.1;
        }

    -- A member of the root, which the four groups leave alone
    get-root :
        (j : String)
        → (j == "device_geometry") ≡ false
        → (j == "device_info") ≡ false
        → (j == "program_options") ≡ false
        → (j == "state") ≡ false
        → J.json_pointer_get root (j ∷ [])
          ≡ field j (("version", J.json_object_new_int 2) ∷ ("device_uuid", uuid) ∷ [])
    get-root j n1 n2 n3 n4 =
        let s = steps in
        get-other J sys laws "state" s.state s.root3 root j [] n4 s.root_eq
        ∙ get-other J sys laws "program_options" s.options s.root2 s.root3 j [] n3 s.root3_eq
        ∙ get-other J sys laws "device_info" (device_fields J sys p) s.root1 s.root2 j [] n2
            s.root2_eq
        ∙ get-other J sys laws "device_geometry" (geometry_fields J sys p.context) s.root0 s.root1 j
            [] n1 s.root1_eq
        ∙ get-new_all J sys laws (("version", J.json_object_new_int 2) ∷ ("device_uuid", uuid) ∷ [])
            s.root0 j s.root0_eq

    get-geometry :
        (j : String)
        → J.json_pointer_get root ("device_geometry" ∷ j ∷ [])
          ≡ field j (geometry_fields J sys p.context)
    get-geometry j =
        let s = steps in
        get-other J sys laws "state" s.state s.root3 root "device_geometry" (j ∷ []) refl s.root_eq
        ∙ get-other J sys laws "program_options" s.options s.root2 s.root3 "device_geometry"
            (j ∷ []) refl s.root3_eq
        ∙ get-other J sys laws "device_info" (device_fields J sys p) s.root1 s.root2
            "device_geometry" (j ∷ []) refl s.root2_eq
        ∙ get-parent J sys laws "device_geometry" (geometry_fields J sys p.context) s.root0 s.root1
            j refl s.root1_eq

    get-device :
        (j : String)
        → J.json_pointer_get root ("device_info" ∷ j ∷ []) ≡ field j (device_fields J sys p)
    get-device j =
        let s = steps in
        get-other J sys laws "state" s.state s.root3 root "device_info" (j ∷ []) refl s.root_eq
        ∙ get-other J sys laws "program_options" s.options s.root2 s.root3 "device_info" (j ∷ [])
            refl s.root3_eq
        ∙ get-parent J sys laws "device_info" (device_fields J sys p) s.root1 s.root2 j refl
            s.root2_eq

    get-options :
        (j : String)
        → J.json_pointer_get root ("program_options" ∷ j ∷ []) ≡ field j (steps.options)
    get-options j =
        let s = steps in
        get-other J sys laws "state" s.state s.root3 root "program_options" (j ∷ []) refl s.root_eq
        ∙ get-parent J sys laws "program_options" s.options s.root2 s.root3 j refl s.root3_eq

    get-state : (j : String) → J.json_pointer_get root ("state" ∷ j ∷ []) ≡ field j (steps.state)
    get-state j =
        let s = steps in get-parent J sys laws "state" s.state s.root3 root j refl s.root_eq

    -- A member of the group "state": a milestone, or one of the six properties that are always there
    get-state_group :
        (j : String)
        → J.json_pointer_get root ("state" ∷ j ∷ [])
          ≡ or_else
              (or_else
                (or_else
                  (or_else
                    (or_else
                      (or_else
                        (or_else
                          (or_else
                            (or_else
                              (or_else
                                (at "twenty_five_percent_failure_round"
                                  (content J sys w p tfpfr_ptr)
                                  j)
                                (at "ten_percent_failure_round" (content J sys w p tpfr_ptr) j))
                              (at "rounds_to_1_threshold" (content J sys w p optr_ptr) j))
                            (at "rounds_to_0_1_threshold" (content J sys w p poptr_ptr) j))
                          (at "first_failure_round" (content J sys w p ffr_ptr) j))
                        (at "bytes_written" (content J sys w p bytes_written_ptr) j))
                      (at "bytes_read" (content J sys w p bytes_read_ptr) j))
                    (at "rounds_completed" (content J sys w p rounds_completed_ptr) j))
                  (at "middle_of_device_data" (content J sys w p mod_data_ptr) j))
                (at "beginning_of_device_data" (content J sys w p bod_data_ptr) j))
              (at "sector_map" (content J sys w p sector_map_ptr) j)
    get-state_group j =
        let i = p.context.endurance_test_info in
        get-state j
        ∙ field-state_fields J sys w p steps.state j steps.state_eq
        ∙ ap
            (λ x.
              or_else
                (or_else
                  (or_else
                    (or_else
                      (or_else
                        (or_else x (at "bytes_written" (content J sys w p bytes_written_ptr) j))
                        (at "bytes_read" (content J sys w p bytes_read_ptr) j))
                      (at "rounds_completed" (content J sys w p rounds_completed_ptr) j))
                    (at "middle_of_device_data" (content J sys w p mod_data_ptr) j))
                  (at "beginning_of_device_data" (content J sys w p bod_data_ptr) j))
                (at "sector_map" (content J sys w p sector_map_ptr) j))
            (field-milestones J sys w i.rounds_to_first_error i.rounds_to_0_1_threshold
              i.rounds_to_1_threshold i.rounds_to_10_threshold i.rounds_to_25_threshold j)

    -- The three texts in base64 were made.
    pub map_encoded : (s : String) × (sys.base64_encode w (map_bytes J sys w p) ≡ some s)
    map_encoded =
        let a =
          and_then-some (sys.base64_encode w (map_bytes J sys w p)) _ steps.state steps.state_eq in
        (a.0, a.1.0)

    pub bod_encoded : (s : String) × (sys.base64_encode w p.context.device_info.bod_buffer ≡ some s)
    bod_encoded =
        let a =
          and_then-some (sys.base64_encode w (map_bytes J sys w p)) _ steps.state steps.state_eq in
        let b =
          and_then-some (sys.base64_encode w p.context.device_info.bod_buffer) _ steps.state
            (a.1.1) in
        (b.0, b.1.0)

    pub mod_encoded : (s : String) × (sys.base64_encode w p.context.device_info.mod_buffer ≡ some s)
    mod_encoded =
        let a =
          and_then-some (sys.base64_encode w (map_bytes J sys w p)) _ steps.state steps.state_eq in
        let b =
          and_then-some (sys.base64_encode w p.context.device_info.bod_buffer) _ steps.state
            (a.1.1) in
        let c =
          and_then-some (sys.base64_encode w p.context.device_info.mod_buffer) _ steps.state
            (b.1.1) in
        (c.0, c.1.0)

    -- Every JSON pointer of load_state finds in the JSON that save_state makes the value that the
    -- pointer names: the version, the UUID, the geometry, the speeds, the options that are given,
    -- by their real paths, the three texts in base64, the counters, and each milestone exactly
    -- when it has been reached; the JSON library keeps its laws.
    pub state_root-content : (q : Pointer) → J.json_pointer_get root (path q) ≡ content J sys w p q
    state_root-content version_ptr = get-root "version" refl refl refl refl
    state_root-content device_uuid_ptr = get-root "device_uuid" refl refl refl refl
    state_root-content reported_size_ptr = get-geometry "reported_size"
    state_root-content detected_size_ptr = get-geometry "detected_size"
    state_root-content sector_size_ptr = get-geometry "sector_size"
    state_root-content block_size_ptr = get-device "block_size"
    state_root-content sequential_read_speed_ptr = get-device "sequential_read_speed"
    state_root-content sequential_write_speed_ptr = get-device "sequential_write_speed"
    state_root-content random_read_iops_ptr = get-device "random_read_iops"
    state_root-content random_write_iops_ptr = get-device "random_write_iops"
    state_root-content disable_curses_ptr =
        get-options "disable_curses"
        ∙ field-option_fields J sys w p.program_options steps.options "disable_curses"
            steps.options_eq
    state_root-content stats_file_ptr =
        get-options "stats_file"
        ∙ field-option_fields J sys w p.program_options steps.options "stats_file" steps.options_eq
        ∙ simp (or_else-none) refl
    state_root-content log_file_ptr =
        get-options "log_file"
        ∙ field-option_fields J sys w p.program_options steps.options "log_file" steps.options_eq
        ∙ simp (or_else-none) refl
    state_root-content lock_file_ptr =
        get-options "lock_file"
        ∙ field-option_fields J sys w p.program_options steps.options "lock_file" steps.options_eq
        ∙ simp (or_else-none) refl
    state_root-content stats_interval_ptr =
        get-options "stats_interval"
        ∙ field-option_fields J sys w p.program_options steps.options "stats_interval"
            steps.options_eq
        ∙ simp (or_else-none) refl
    state_root-content sector_map_ptr = get-state_group "sector_map"
    state_root-content bod_data_ptr =
        get-state_group "beginning_of_device_data" ∙ simp (or_else-none) refl
    state_root-content mod_data_ptr =
        get-state_group "middle_of_device_data" ∙ simp (or_else-none) refl
    state_root-content rounds_completed_ptr = get-state_group "rounds_completed"
    state_root-content bytes_read_ptr = get-state_group "bytes_read"
    state_root-content bytes_written_ptr = get-state_group "bytes_written"
    state_root-content ffr_ptr = get-state_group "first_failure_round" ∙ simp (or_else-none) refl
    state_root-content poptr_ptr =
        get-state_group "rounds_to_0_1_threshold" ∙ simp (or_else-none) refl
    state_root-content optr_ptr = get-state_group "rounds_to_1_threshold" ∙ simp (or_else-none) refl
    state_root-content tpfr_ptr =
        get-state_group "ten_percent_failure_round" ∙ simp (or_else-none) refl
    state_root-content tfpfr_ptr =
        get-state_group "twenty_five_percent_failure_round" ∙ simp (or_else-none) refl
