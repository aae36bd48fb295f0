-- ===== src/State/Rejects.antt =====
-- Which state files load_state rejects, and what it leaves of the program then.
use mfst.Common.{
  and_then, and_then-none, ℕ, zero, suc, ◌<◌, ◌≡◌, refl, ap, ◌∙◌, arith, true, false, ◌⊎◌, none,
  some, List, [], ◌∷◌, get_or, length, if◌then◌else◌,
}
use mfst.State.Json.{Json, System, json_type_int, json_type_double}
use mfst.State.Load.{load_state_load_error, load_found, load_root}
use mfst.State.Save.{Program}
use mfst.State.Schema.{
  Pointer, all_props, path, prop_types, required_props, index, version_ptr, device_uuid_ptr,
  reported_size_ptr, detected_size_ptr, sector_size_ptr, block_size_ptr, sequential_read_speed_ptr,
  sequential_write_speed_ptr, random_read_iops_ptr, random_write_iops_ptr, disable_curses_ptr,
  stats_file_ptr, log_file_ptr, lock_file_ptr, stats_interval_ptr, sector_map_ptr, bod_data_ptr,
  mod_data_ptr, rounds_completed_ptr, bytes_read_ptr, bytes_written_ptr, ffr_ptr, poptr_ptr,
  optr_ptr, tpfr_ptr, tfpfr_ptr,
}
use mfst.State.Validate.{Stack, Found, nothing_found, check_prop, validate}

index-lt : (p : Pointer) → index p < 26
index-lt version_ptr = omega arith
index-lt device_uuid_ptr = omega arith
index-lt reported_size_ptr = omega arith
index-lt detected_size_ptr = omega arith
index-lt sector_size_ptr = omega arith
index-lt block_size_ptr = omega arith
index-lt sequential_read_speed_ptr = omega arith
index-lt sequential_write_speed_ptr = omega arith
index-lt random_read_iops_ptr = omega arith
index-lt random_write_iops_ptr = omega arith
index-lt disable_curses_ptr = omega arith
index-lt stats_file_ptr = omega arith
index-lt log_file_ptr = omega arith
index-lt lock_file_ptr = omega arith
index-lt stats_interval_ptr = omega arith
index-lt sector_map_ptr = omega arith
index-lt bod_data_ptr = omega arith
index-lt mod_data_ptr = omega arith
index-lt rounds_completed_ptr = omega arith
index-lt bytes_read_ptr = omega arith
index-lt bytes_written_ptr = omega arith
index-lt ffr_ptr = omega arith
index-lt poptr_ptr = omega arith
index-lt optr_ptr = omega arith
index-lt tpfr_ptr = omega arith
index-lt tfpfr_ptr = omega arith

get_or-index : (p : Pointer) → get_or all_props (index p) version_ptr ≡ p
get_or-index version_ptr = refl
get_or-index device_uuid_ptr = refl
get_or-index reported_size_ptr = refl
get_or-index detected_size_ptr = refl
get_or-index sector_size_ptr = refl
get_or-index block_size_ptr = refl
get_or-index sequential_read_speed_ptr = refl
get_or-index sequential_write_speed_ptr = refl
get_or-index random_read_iops_ptr = refl
get_or-index random_write_iops_ptr = refl
get_or-index disable_curses_ptr = refl
get_or-index stats_file_ptr = refl
get_or-index log_file_ptr = refl
get_or-index lock_file_ptr = refl
get_or-index stats_interval_ptr = refl
get_or-index sector_map_ptr = refl
get_or-index bod_data_ptr = refl
get_or-index mod_data_ptr = refl
get_or-index rounds_completed_ptr = refl
get_or-index bytes_read_ptr = refl
get_or-index bytes_written_ptr = refl
get_or-index ffr_ptr = refl
get_or-index poptr_ptr = refl
get_or-index optr_ptr = refl
get_or-index tpfr_ptr = refl
get_or-index tfpfr_ptr = refl

-- An integer property that is the integer 0, or a speed that is a number and not more than 0.
abbrev pub NotPositive : (J : Json) → Pointer → J.Object → Type 0
NotPositive J p obj =
    ((prop_types p ≡ json_type_int)
      × (J.json_object_get_type obj ≡ json_type_int)
      × (J.json_object_get_uint64 obj ≡ 0))
    ⊎ ((prop_types p ≡ json_type_double)
        × ((J.json_object_get_type obj ≡ json_type_int)
            ⊎ (J.json_object_get_type obj ≡ json_type_double))
        × (J.is_positive (J.json_object_get_double obj) ≡ false))

module _ {W : Type 0} (J : Json) (sys : System J W) (w : W) (root : J.Object) where
  -- One property that does not pass is enough.
  validate-rejects :
      (p : Pointer)
      → ((found : Found) → check_prop J sys w p (J.json_pointer_get root (path p)) found ≡ none)
      → (ps : List Pointer) (i : ℕ) (found : Found) → i < length ps
      → get_or ps i version_ptr ≡ p
      → validate J sys w root ps found ≡ none
  unfolding validate
  validate-rejects p h [] i found lt e = absurd (omega arith)
  validate-rejects p h (q ∷ ps) zero found lt e =
      ap (λ o. and_then o λ found'. validate J sys w root ps found')
        (ap (λ r. check_prop J sys w r (J.json_pointer_get root (path r)) found) e ∙ h found)
  validate-rejects p h (q ∷ ps) (suc i) found lt e =
      and_then-none (check_prop J sys w q (J.json_pointer_get root (path q)) found)
        (λ found'. validate J sys w root ps found')
        (λ found'. validate-rejects p h ps i found' (omega arith) e)

  load_root-rejects :
      (p : Pointer)
      → ((found : Found) → check_prop J sys w p (J.json_pointer_get root (path p)) found ≡ none)
      → (stack : Stack) (q : Program J)
      → load_root J sys w stack root q ≡ (load_state_load_error, q)
  unfolding load_root
  load_root-rejects p h stack q =
      ap (λ o. load_found J sys w root o q)
        (validate-rejects p h all_props (index p) (nothing_found stack) (index-lt p)
          (get_or-index p))

  -- A required property that is missing is enough.
  pub load_root-missing :
      (p : Pointer) (stack : Stack) (q : Program J)
      → required_props p ≡ true
      → J.json_pointer_get root (path p) ≡ none
      → load_root J sys w stack root q ≡ (load_state_load_error, q)
  load_root-missing p stack q r missing =
      load_root-rejects p
        (λ found.
          ap (λ o. check_prop J sys w p o found) missing
          ∙ ap (λ b. if b then none else some found) r)
        stack q
