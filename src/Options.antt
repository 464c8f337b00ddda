-- ===== src/Options.antt =====
-- util.c: `GetBaseAppName`, and how `mpiPi_getenv` reads the MPIP environment variable.
-- `getopt` gives the options one by one, those of f, k, m, s, t and x with an argument and the others
-- without one; it, `atoi` and `atof` are the C library's, and the results of the last two are given
-- with each option. A letter is its ASCII code. Messages are left out.
pub mod Bounds
use mpi_pv.Prelude.{
  ℕ, zero, suc, ◌+◌, ◌*◌, ◌/◌, Bool, true, false, not, Option, none, some, List, [], ◌∷◌, ◌++◌, ltb,
  leb, ◌==◌, if◌then◌else◌, length,
}
use mpi_pv.Prelude.Int.{ℤ, pos, negsuc}
use mpi_pv.Callsite.{Text, stack_depth_max}
use mpi_pv.State.{Settings, default_settings, sci_format, flt_format, concise, both}

-- `rindex (rawName, '/')`: what follows the last slash, if there is one.
unfoldable pub after_last_slash : Text → Option Text
after_last_slash [] = none
after_last_slash (c ∷ cs) = elim (after_last_slash cs) [
  | some rest ↦ some rest
  | none ↦ if c == 0x2f then some cs else none
]

unfoldable pub get_base_app_name : Option Text → Text
get_base_app_name none = 0x55 ∷ 0x6e ∷ 0x6b ∷ 0x6e ∷ 0x6f ∷ 0x77 ∷ 0x6e ∷ []
get_base_app_name (some raw) = elim (after_last_slash raw) [ none ↦ raw | some rest ↦ rest ]

-- The loop that fills `av` with the words that `strtok` gives, after `av[0]`: the words that fit.
unfoldable pub fill_av : ℕ → ℕ → List Text → List Text
fill_av zero ac words = []
fill_av (suc left) ac [] = []
fill_av (suc left) ac (w ∷ words) =
    let rest = fill_av left (suc ac) words in if ltb ac 64 then w ∷ rest else []

-- The `ac` after the loop, which is the index of `av[ac] = NULL`
unfoldable pub last_index : List Text → ℕ
last_index words = length (fill_av 64 1 words) + 1

-- What the options change: the settings, and the rest of the global that they touch. The report
-- print threshold is in millionths of a percent.
pub record Configured : Type 0 where
  pub settings : Settings
  pub report_print_threshold : ℕ
  pub enabled : Bool
  pub enabled_count : ℕ
  pub app_name : Text
  pub app_full_name : Option Text
  pub debug : Bool

-- What `mpiPi_init` sets before it calls `mpiPi_getenv`.
unfoldable pub configured : Text → Option Text → Configured
configured app_name app_full_name = record {
  settings = default_settings;
  report_print_threshold = 0;
  enabled = true;
  enabled_count = 1;
  app_name = app_name;
  app_full_name = app_full_name;
  debug = false;
}

abbrev percent : ℕ
percent = 1000000

-- The default is kept in an `int`.
abbrev truncated : ℕ → ℕ
truncated threshold = threshold / percent * percent

unfoldable pub checked_size : ℕ → ℤ → ℕ
checked_size default (pos n) = if ltb n 2 then default else n
checked_size default (negsuc n) = default

unfoldable pub checked_depth : ℤ → ℕ
checked_depth (pos n) = if ltb stack_depth_max n then stack_depth_max else n
checked_depth (negsuc n) = 0

abbrev pub is_negative : ℤ → Bool
is_negative (pos n) = false
is_negative (negsuc n) = true

abbrev below_limit : ℕ → ℕ → ℕ
below_limit default n = if leb (100 * percent) n then default else n

unfoldable pub checked_threshold : ℕ → ℤ → ℕ
checked_threshold default (pos n) = below_limit default n
checked_threshold default (negsuc n) = below_limit default default

-- One result of `getopt`.
pub data Parsed : Type 0 where
  flag : ℕ → Parsed
  -- with `optarg`, `atoi (optarg)`, and `atof (optarg)` in millionths
  with_argument : ℕ → Text → ℤ → ℤ → Parsed

unfoldable pub set_stack_depth : ℤ → Settings → Settings
set_stack_depth n s = record s {
  stack_depth = checked_depth n;
  print_callsite_detail = if is_negative n then false else s.print_callsite_detail;
  calc_cov = if checked_depth n == 0 then false else s.calc_cov;
}

unfoldable pub apply_flag : ℕ → Configured → Configured
apply_flag letter c =
    let s = c.settings in
    if letter == 0x67
    then record c { debug = true }
    else if letter == 0x6f
    then record c { enabled = false; enabled_count = 0 }
    else if letter == 0x6e
    then record c { settings = record s { base_names = true } }
    else if letter == 0x65
    then record c { settings = record s { report_format = flt_format } }
    else if letter == 0x63
    then record c { settings = record s { report_style = concise } }
    else if letter == 0x76
    then record c { settings = record s { report_style = both } }
    else if letter == 0x64
    then record c { settings = record s { print_callsite_detail = not s.print_callsite_detail } }
    else if letter == 0x6c
    then record c { settings = record s { collective_report = true } }
    else if letter == 0x72
    then record c { settings = record s { collective_report = false } }
    else if letter == 0x7a
    then record c { settings = record s { disable_finalize_report = true } }
    else if letter == 0x79
    then record c { settings = record s { do_collective_stats_report = true } }
    else if letter == 0x70
    then record c { settings = record s { do_pt2pt_stats_report = true } }
    else c

unfoldable pub apply_argument : ℕ → Text → ℤ → ℤ → Configured → Configured
apply_argument letter optarg n x c =
    let s = c.settings in
    if letter == 0x66
    then record c { settings = record s { output_dir = optarg } }
    else if letter == 0x73
    then record c { settings = record s { table_size = checked_size s.table_size n } }
    else if letter == 0x6b
    then record c { settings = set_stack_depth n s }
    else if letter == 0x74
    then record c {
      report_print_threshold = checked_threshold (truncated c.report_print_threshold) x;
    }
    else if letter == 0x6d
    then record c { settings = record s { message_count_threshold = n } }
    else if letter == 0x78
    then record c { app_full_name = some optarg; app_name = get_base_app_name (some optarg) }
    else c

-- The body of the `switch`
unfoldable pub apply_option : Parsed → Configured → Configured
apply_option (flag letter) c = apply_flag letter c
apply_option (with_argument letter optarg n x) c = apply_argument letter optarg n x c

-- `for (; ((c = getopt (..)) != EOF);)`
unfoldable pub apply_options : List Parsed → Configured → Configured
apply_options [] c = c
apply_options (o ∷ os) c = apply_options os (apply_option o c)
