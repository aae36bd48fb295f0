-- ===== src/Options.antt =====
-- `parse_command_line_arguments` of mfst.c. getopt_long of the C library is outside the model: the
-- arguments are the list of the values that it returns, each with its `optarg`, and the words that
-- it leaves. The tables that it is given are `options` and `short_options`. The numbers that strtol and strtoull read are the parameter `number`. `strdup`, under
-- `assert`, gives a copy; that of the name of the lock file, without, is the parameter `lock_copy`; the password that is masked in `argv`, and the help, are left out.
pub mod Parsed
use Prim.Native.String.{String}
use mfst.Common.{ℕ, Bool, true, false, Option, none, some, List, [], ◌∷◌, if◌then◌else◌, ◌==◌}
use mfst.Device.{is_none}

pub record ProgramOptions : Type 0 where
  pub stats_file : Option String
  pub log_file : Option String
  pub device_name : Option String
  pub stats_interval : ℕ
  pub probe_for_optimal_block_size : Bool
  pub no_curses : Bool
  pub orig_no_curses : Bool
  pub dont_show_warning_message : Bool
  pub lock_file : Option String
  pub state_file : Option String
  pub force_sectors : ℕ
  pub db_host : Option String
  pub db_user : Option String
  pub db_pass : Option String
  pub db_name : Option String
  pub db_port : ℕ
  pub card_name : Option String
  pub card_id : ℕ
  -- the global variable `forced_device`
  pub forced_device : Option String

-- The values of `c` in the `switch`, 'b', for which it has no case, and '?', `code_unknown`, which
-- getopt_long returns for an option that it does not know.
pub data Code : Type 0 where
  code_2 code_3 code_4 code_5 code_6 code_7 code_8 code_9 code_10 : Code
  code_b code_e code_f code_h code_i code_l code_n code_p code_s code_t code_unknown : Code

-- The table of the long options: the name, whether an argument is required, and the value.
abbrev pub options : List (String × (Bool × Code))
options =
    ("stats-file", (true, code_s))
    ∷ ("log-file", (true, code_l))
    ∷ ("probe-for-block-size", (false, code_b))
    ∷ ("stats-interval", (true, code_i))
    ∷ ("no-curses", (false, code_n))
    ∷ ("help", (false, code_h))
    ∷ ("this-will-destroy-my-device", (false, code_2))
    ∷ ("lockfile", (true, code_f))
    ∷ ("state-file", (true, code_t))
    ∷ ("sectors", (true, code_e))
    ∷ ("force-device", (true, code_3))
    ∷ ("dbhost", (true, code_4))
    ∷ ("dbuser", (true, code_5))
    ∷ ("dbpass", (true, code_6))
    ∷ ("dbname", (true, code_7))
    ∷ ("dbport", (true, code_8))
    ∷ ("cardid", (true, code_9))
    ∷ ("cardname", (true, code_10))
    ∷ []

-- "be:f:hi:l:ns:t:"
abbrev pub short_options : List (Code × Bool)
short_options =
    (code_b, false)
    ∷ (code_e, true)
    ∷ (code_f, true)
    ∷ (code_h, false)
    ∷ (code_i, true)
    ∷ (code_l, true)
    ∷ (code_n, false)
    ∷ (code_s, true)
    ∷ (code_t, true)
    ∷ []

-- The defaults, in a build with ncurses.
abbrev pub default_options : ProgramOptions
default_options = record {
  stats_file = none;
  log_file = none;
  device_name = none;
  stats_interval = 60;
  probe_for_optimal_block_size = false;
  no_curses = false;
  orig_no_curses = false;
  dont_show_warning_message = false;
  lock_file = none;
  state_file = none;
  force_sectors = 0;
  db_host = none;
  db_user = none;
  db_pass = none;
  db_name = none;
  db_port = 0;
  card_name = none;
  card_id = 0;
  forced_device = none;
}

module _ (number : String → ℕ) where
  -- One round of the `switch`; `none` for `return -1`.
  unfoldable pub set_option : Code → String → ProgramOptions → Option ProgramOptions
  set_option code_2 optarg o = some record o { dont_show_warning_message = true }
  set_option code_3 optarg o = some record o { forced_device = some optarg }
  set_option code_4 optarg o = some record o { db_host = some optarg }
  set_option code_5 optarg o = some record o { db_user = some optarg }
  set_option code_6 optarg o = some record o { db_pass = some optarg }
  set_option code_7 optarg o = some record o { db_name = some optarg }
  set_option code_8 optarg o = some record o { db_port = number optarg }
  set_option code_9 optarg o = some record o { card_id = number optarg }
  set_option code_10 optarg o = some record o { card_name = some optarg }
  set_option code_b optarg o = some o
  set_option code_unknown optarg o = some o
  set_option code_e optarg o = some record o { force_sectors = number optarg }
  set_option code_f optarg o = some record o { lock_file = some optarg }
  set_option code_h optarg o = none
  set_option code_i optarg o = some record o { stats_interval = number optarg }
  set_option code_l optarg o =
      if is_none o.log_file then some record o { log_file = some optarg } else none
  set_option code_n optarg o = some record o { no_curses = true; orig_no_curses = true }
  set_option code_p optarg o = some record o { probe_for_optimal_block_size = true }
  set_option code_s optarg o =
      if is_none o.stats_file then some record o { stats_file = some optarg } else none
  set_option code_t optarg o =
      if is_none o.state_file then some record o { state_file = some optarg } else none

  unfoldable pub set_options : List (Code × String) → ProgramOptions → Option ProgramOptions
  set_options [] o = some o
  set_options (c ∷ cs) o = elim (set_option c.0 c.1 o) [ none ↦ none | some o' ↦ set_options cs o' ]

  -- The loop over the words after the options.
  unfoldable pub set_device : List String → ProgramOptions → Option ProgramOptions
  set_device [] o = some o
  set_device (word ∷ words) o = elim (is_none o.device_name) [
    | true ↦ set_device words (record o { device_name = some word })
    | false ↦ none
  ]

  -- What is filled in at the end; `none` when there is neither a device nor a state file.
  unfoldable pub fill_in : Option String → ProgramOptions → Option ProgramOptions
  fill_in lock_copy o =
      let lock = if is_none o.lock_file then lock_copy else o.lock_file in
      let port = if o.db_port == 0 then 3306 else o.db_port in
      elim (is_none o.device_name) [
        | false ↦ some record o { lock_file = lock; db_port = port }
        | true ↦ elim (is_none o.state_file) [
          | false ↦ some record o { lock_file = lock; db_port = port }
          | true ↦ none
        ]
      ]

  unfoldable pub parse_command_line_arguments :
      Option String → List (Code × String) → List String → Option ProgramOptions
  parse_command_line_arguments lock_copy codes words = elim (set_options codes default_options) [
    | none ↦ none
    | some given ↦ elim (set_device words given) [
      | none ↦ none
      | some named ↦ fill_in lock_copy named
    ]
  ]
