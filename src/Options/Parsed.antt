-- ===== src/Options/Parsed.antt =====
-- What holds of the options when they are accepted.
use Prim.Native.String.{String}
use mfst.Common.{
  ℕ, ◌≡◌, ◌≢◌, refl, arith, Bool, true, false, ◌&&◌, not, ◌⊎◌, inl, inr, Option, none, some, List,
  [], ◌∷◌, if◌then◌else◌, ◌==◌, All,
}
use mfst.Device.{is_none}
use mfst.Options.{
  ProgramOptions, Code, code_2, code_3, code_4, code_5, code_6, code_7, code_8, code_9, code_10,
  code_b, code_e, code_f, code_h, code_i, code_l, code_n, code_p, code_s, code_t, code_unknown,
  options, short_options, default_options, set_option, set_options, set_device, fill_in,
  parse_command_line_arguments,
}

-- The result, if there is one.
abbrev pub Accepted : (ProgramOptions → Type 0) → Option ProgramOptions → Type 0
Accepted P none = Unit
Accepted P (some o) = P o

is_p : Code → Bool
is_p code_p = true
is_p other = false

-- The value is that of an option in the list.
abbrev pub IsValueOf : List Code → Code → Type 0
IsValueOf [] c = ⊥
IsValueOf (x ∷ xs) c = (c ≡ x) ⊎ IsValueOf xs c

abbrev pub long_values : List (String × (Bool × Code)) → List Code
long_values [] = []
long_values (x ∷ xs) = x.1.1 ∷ long_values xs

abbrev pub short_values : List (Code × Bool) → List Code
short_values [] = []
short_values (x ∷ xs) = x.0 ∷ short_values xs

-- getopt_long returns the value of an option in one of its tables, or '?'.
abbrev pub InTable : Code × String → Type 0
InTable c =
    IsValueOf (long_values options) (c.0)
    ⊎ (IsValueOf (short_values short_options) (c.0) ⊎ (c.0 ≡ code_unknown))

value-not_p :
    (values : List Code) (c : Code)
    → All (λ x. is_p x ≡ false) values
    → IsValueOf values c
    → is_p c ≡ false
value-not_p [] c ns m = absurd m
value-not_p (x ∷ xs) c (n, ns) (inl e) = rw e n
value-not_p (x ∷ xs) c (n, ns) (inr m) = value-not_p xs c ns m

-- No option in the tables has the value 'p'.
not_p : (c : Code × String) → InTable c → is_p (c.0) ≡ false
unfolding is_p
not_p c (inl m) =
    value-not_p (long_values options) (c.0)
      (
        refl,
        (
          refl,
          (
            refl,
            (
              refl,
              (
                refl,
                (
                  refl,
                  (
                    refl,
                    (
                      refl,
                      (
                        refl,
                        (refl, (refl, (refl, (refl, (refl, (refl, (refl, (refl, (refl, tt))))))))),
                      ),
                    ),
                  ),
                ),
              ),
            ),
          ),
        ),
      )
      m
not_p c (inr (inl m)) =
    value-not_p (short_values short_options) (c.0)
      (refl, (refl, (refl, (refl, (refl, (refl, (refl, (refl, (refl, tt))))))))) m
not_p c (inr (inr e)) = rw e refl

abbrev pub NoProbe : ProgramOptions → Type 0
NoProbe o = o.probe_for_optimal_block_size ≡ false

if-Accepted :
    (b : Bool) (o : ProgramOptions) → NoProbe o → Accepted NoProbe (if b then some o else none)
if-Accepted true o h = h
if-Accepted false o h = tt

module _ (number : String → ℕ) where
  set_option-NoProbe :
      (c : Code) (s : String) (o : ProgramOptions)
      → is_p c ≡ false
      → NoProbe o
      → Accepted NoProbe (set_option number c s o)
  unfolding set_option is_p
  set_option-NoProbe code_h s o ne h = tt
  set_option-NoProbe code_l s o ne h = if-Accepted (is_none o.log_file) _ h
  set_option-NoProbe code_s s o ne h = if-Accepted (is_none o.stats_file) _ h
  set_option-NoProbe code_t s o ne h = if-Accepted (is_none o.state_file) _ h
  set_option-NoProbe code_p s o ne h = absurd (cc ne)
  set_option-NoProbe code_2 s o ne h = h
  set_option-NoProbe code_3 s o ne h = h
  set_option-NoProbe code_4 s o ne h = h
  set_option-NoProbe code_5 s o ne h = h
  set_option-NoProbe code_6 s o ne h = h
  set_option-NoProbe code_7 s o ne h = h
  set_option-NoProbe code_8 s o ne h = h
  set_option-NoProbe code_9 s o ne h = h
  set_option-NoProbe code_10 s o ne h = h
  set_option-NoProbe code_b s o ne h = h
  set_option-NoProbe code_unknown s o ne h = h
  set_option-NoProbe code_e s o ne h = h
  set_option-NoProbe code_f s o ne h = h
  set_option-NoProbe code_i s o ne h = h
  set_option-NoProbe code_n s o ne h = h

  bind-Accepted :
      (P Q : ProgramOptions → Type 0) (r : Option ProgramOptions)
      (next : ProgramOptions → Option ProgramOptions)
      → Accepted P r
      → ((o : ProgramOptions) → P o → Accepted Q (next o))
      → Accepted Q (elim r [ none ↦ none | some o ↦ next o ])
  bind-Accepted P Q none next p q = tt
  bind-Accepted P Q (some o) next p q = q o p

  set_options-NoProbe :
      (codes : List (Code × String)) (o : ProgramOptions)
      → All InTable codes
      → NoProbe o
      → Accepted NoProbe (set_options number codes o)
  unfolding set_options
  set_options-NoProbe [] o hs h = h
  set_options-NoProbe (c ∷ codes) o hs h =
      bind-Accepted NoProbe NoProbe (set_option number c.0 c.1 o) _
        (set_option-NoProbe c.0 c.1 o (not_p c hs.0) h)
        (λ o' h'. set_options-NoProbe codes o' hs.1 h')

  branch-Accepted :
      (P : ProgramOptions → Type 0) (b : Bool) (x y : Option ProgramOptions)
      → (b ≡ true → Accepted P x)
      → (b ≡ false → Accepted P y)
      → Accepted P (elim b [ true ↦ x | false ↦ y ])
  branch-Accepted P true x y p q = p refl
  branch-Accepted P false x y p q = q refl

  set_device-NoProbe :
      (words : List String) (o : ProgramOptions)
      → NoProbe o
      → Accepted NoProbe (set_device number words o)
  unfolding set_device
  set_device-NoProbe [] o h = h
  set_device-NoProbe (w ∷ words) o h =
      branch-Accepted NoProbe (is_none o.device_name) _ _
        (λ first. set_device-NoProbe words (record o { device_name = some w }) h) (λ second. tt)

  -- What the rest of the program relies on, and the option that is never set.
  pub record Usable (lock_copy : Option String) (o : ProgramOptions) : Type 0 where
    pub no_probe : NoProbe o
    -- The lock file has a name, unless there was no memory for the name of the default one.
    pub lock_file : (is_none o.lock_file && not (is_none lock_copy)) ≡ false
    pub db_port : o.db_port ≢ 0
    pub device_or_state : (is_none o.device_name && is_none o.state_file) ≡ false

  lock_given :
      (o copy : Option String)
      → (is_none (if is_none o then copy else o) && not (is_none copy)) ≡ false
  lock_given none none = refl
  lock_given none (some s) = refl
  lock_given (some s) copy = refl

  port_given : (n : ℕ) → (if n == 0 then 3306 else n) ≢ 0
  port_given n = ground arith

  fill_in-Usable :
      (copy : Option String) (o : ProgramOptions)
      → NoProbe o
      → Accepted (Usable copy) (fill_in number copy o)
  unfolding fill_in
  fill_in-Usable copy o h =
      let lock = lock_given o.lock_file copy in
      let port = port_given o.db_port in
      branch-Accepted (Usable copy) (is_none o.device_name) _ _
        (λ no_device.
          branch-Accepted (Usable copy) (is_none o.state_file) _ _ (λ nothing. tt)
            (λ state. record {
              no_probe = h;
              lock_file = lock;
              db_port = port;
              device_or_state = ground (arith, state);
            }))
        (λ device. record {
          no_probe = h;
          lock_file = lock;
          db_port = port;
          device_or_state = ground (arith, device);
        })

  -- Whatever the arguments, when they are accepted there are a database port and a device or a
  -- state file, a name for the lock file unless there was no memory for the default one, and the
  -- block size is never probed for; provided that getopt_long returns only the values of its two
  -- tables, and '?'.
  pub parse_command_line_arguments-Usable :
      (lock_copy : Option String) (codes : List (Code × String)) (words : List String)
      → All InTable codes
      → Accepted (Usable lock_copy) (parse_command_line_arguments number lock_copy codes words)
  unfolding parse_command_line_arguments
  parse_command_line_arguments-Usable lock_copy codes words hs =
      bind-Accepted NoProbe (Usable lock_copy) (set_options number codes default_options) _
        (set_options-NoProbe codes default_options hs refl)
        (λ given h.
          bind-Accepted NoProbe (Usable lock_copy) (set_device number words given) _
            (set_device-NoProbe words given h) (λ named k. fill_in-Usable lock_copy named k))
