-- ===== src/State/Groups.antt =====
-- The fields of the groups "program_options" and "state", looked up by key.
use Prim.Native.String.{String}
use text.Mathlib.Text.{◌==◌}
use mfst.Common.{ℕ, ◌≡◌, sym, ap, ap₂, ◌∙◌, Option, none, some, List, ◌∷◌, if◌then◌else◌}
use mfst.Common.{◌++◌ as append}
use mfst.Options.{ProgramOptions}
use mfst.State.Json.{Json, System}
use mfst.State.Lookup.{and_then-some, or_else, field, field-append}
use mfst.State.Save.{
  Program, file_field, lock_field, interval_field, milestone_field, option_fields, state_fields,
  round_fields,
}
use mfst.State.Content.{map_some, real_path, reached, map_bytes, content}
use mfst.State.Fields.{
  field-file_field, field-lock_field, field-interval_field, field-milestone_field,
}
use mfst.State.Schema.{sector_map_ptr, bod_data_ptr, mod_data_ptr}

-- The value at one key
abbrev pub at : {A : Type 0} → String → Option A → String → Option A
at key o j = if j == key then o else none

module _ {W : Type 0} (J : Json) (sys : System J W) (w : W) where
  -- The group "program_options"
  pub field-option_fields :
      (o : ProgramOptions) (fields : List (String × J.Object)) (j : String)
      → option_fields J sys w o ≡ some fields
      → field j fields
        ≡ or_else
            (or_else
              (or_else
                (or_else
                  (at "lock_file"
                    (map_some J.json_object_new_string (real_path J sys w o.lock_file))
                    j)
                  (at "log_file"
                    (map_some J.json_object_new_string (real_path J sys w o.log_file))
                    j))
                (at "stats_interval"
                  (map_some (λ name. J.json_object_new_uint64 o.stats_interval) o.stats_file)
                  j))
              (at "stats_file"
                (map_some J.json_object_new_string (real_path J sys w o.stats_file))
                j))
            (at "disable_curses" (some (J.json_object_new_boolean o.orig_no_curses)) j)
  field-option_fields o fields j e =
      let curses : String × J.Object =
        ("disable_curses", J.json_object_new_boolean o.orig_no_curses) in
      let interval = interval_field J sys o in
      let stats = and_then-some (file_field J sys w "stats_file" o.stats_file) _ fields e in
      let log = and_then-some (file_field J sys w "log_file" o.log_file) _ fields (stats.1.1) in
      let lock = and_then-some (lock_field J sys w o.lock_file) _ fields (log.1.1) in
      let whole : fields ≡ curses ∷ append (stats.0) (append interval (append (log.0) (lock.0))) =
        cc (lock.1.1) in
      ap (field j) whole
      ∙ ap (λ x. or_else x (at "disable_curses" (some (curses.1)) j))
          (field-append j (stats.0) (append interval (append (log.0) (lock.0)))
            ∙ ap₂ or_else
                (field-append j interval (append (log.0) (lock.0))
                  ∙ ap₂ or_else
                      (field-append j (log.0) (lock.0)
                        ∙ ap₂ or_else (field-lock_field J sys w j o.lock_file (lock.0) (lock.1.0))
                            (field-file_field J sys w j "log_file" o.log_file (log.0) (log.1.0)))
                      (field-interval_field J sys w j o))
                (field-file_field J sys w j "stats_file" o.stats_file (stats.0) (stats.1.0)))

  -- The milestones
  pub field-milestones :
      (a b c d e : ℕ) (j : String)
      → field j (
          append (milestone_field J sys "first_failure_round" a) (
            append (milestone_field J sys "rounds_to_0_1_threshold" b) (
              append (milestone_field J sys "rounds_to_1_threshold" c) (
                append
                  (milestone_field J sys "ten_percent_failure_round" d)
                  (milestone_field J sys "twenty_five_percent_failure_round" e)))))
        ≡ or_else
            (or_else
              (or_else
                (or_else
                  (at "twenty_five_percent_failure_round" (reached J sys w e) j)
                  (at "ten_percent_failure_round" (reached J sys w d) j))
                (at "rounds_to_1_threshold" (reached J sys w c) j))
              (at "rounds_to_0_1_threshold" (reached J sys w b) j))
            (at "first_failure_round" (reached J sys w a) j)
  field-milestones a b c d e j =
      let ma = milestone_field J sys "first_failure_round" a in
      let mb = milestone_field J sys "rounds_to_0_1_threshold" b in
      let mc = milestone_field J sys "rounds_to_1_threshold" c in
      let md = milestone_field J sys "ten_percent_failure_round" d in
      let me = milestone_field J sys "twenty_five_percent_failure_round" e in
      field-append j ma (append mb (append mc (append md me)))
      ∙ ap₂ or_else
          (field-append j mb (append mc (append md me))
            ∙ ap₂ or_else
                (field-append j mc (append md me)
                  ∙ ap₂ or_else
                      (field-append j md me
                        ∙ ap₂ or_else
                            (field-milestone_field J sys w j "twenty_five_percent_failure_round" e)
                            (field-milestone_field J sys w j "ten_percent_failure_round" d))
                      (field-milestone_field J sys w j "rounds_to_1_threshold" c))
                (field-milestone_field J sys w j "rounds_to_0_1_threshold" b))
          (field-milestone_field J sys w j "first_failure_round" a)

  -- The group "state"
  module _ (p : Program J) (fields : List (String × J.Object)) where
    pub field-state_fields :
        (j : String)
        → state_fields J sys w p.context ≡ some fields
        → field j fields
          ≡ or_else
              (or_else
                (or_else
                  (field j (round_fields J sys p.context))
                  (at "middle_of_device_data" (content J sys w p mod_data_ptr) j))
                (at "beginning_of_device_data" (content J sys w p bod_data_ptr) j))
              (at "sector_map" (content J sys w p sector_map_ptr) j)
    field-state_fields j e =
        let text = J.json_object_new_string in
        let a = and_then-some (sys.base64_encode w (map_bytes J sys w p)) _ fields e in
        let b =
          and_then-some (sys.base64_encode w p.context.device_info.bod_buffer) _ fields (a.1.1) in
        let c =
          and_then-some (sys.base64_encode w p.context.device_info.mod_buffer) _ fields (b.1.1) in
        let whole : fields
            ≡ ("sector_map", text (a.0))
              ∷ ("beginning_of_device_data", text (b.0))
              ∷ ("middle_of_device_data", text (c.0))
              ∷ round_fields J sys p.context =
          cc (c.1.1) in
        ap (field j) whole
        ∙ ap₂
            (λ x y.
              or_else
                (or_else
                  (or_else (field j (round_fields J sys p.context))
                    (at "middle_of_device_data" x j))
                  (at "beginning_of_device_data" y j))
                (at "sector_map" (some (text (a.0))) j))
            (sym (ap (map_some text) (c.1.0))) (sym (ap (map_some text) (b.1.0)))
        ∙ ap
            (λ x.
              or_else
                (or_else
                  (or_else (field j (round_fields J sys p.context))
                    (at "middle_of_device_data" (content J sys w p mod_data_ptr) j))
                  (at "beginning_of_device_data" (content J sys w p bod_data_ptr) j))
                (at "sector_map" x j))
            (sym (ap (map_some text) (a.1.0)))
