-- ===== src/Tests/OptionRuns.antt =====
-- util.c, mpiPi.c: options of the environment variable, and the start of the profiler.
use mpi_pv.Prelude.{◌≡◌, ◌<◌, ◌↔◌, true, false, refl, none, some, List, [], ◌∷◌, length, replicate}
use mpi_pv.Prelude.Int.{pos}
use mpi_pv.Hash.{ok, lookup}
use mpi_pv.Callsite.{CallsiteStats, Text}
use mpi_pv.State.{Profiler, default_settings}
use mpi_pv.Options.{
  after_last_slash, get_base_app_name, fill_av, last_index, Configured, configured, Parsed, flag,
  with_argument, checked_size, checked_depth, checked_threshold, set_stack_depth, apply_flag,
  apply_argument, apply_option, apply_options,
}
use mpi_pv.Options.Bounds.{InBounds, apply_options-InBounds, last_index_iff}
use mpi_pv.Init.{init, init-IsTask}
use mpi_pv.Task.Refine.{IsTask}

-- "/a/b", and -k 20 -s 1 -o -t 250
abbrev path : Text
path = 0x2f ∷ 0x61 ∷ 0x2f ∷ 0x62 ∷ []

abbrev options : List Parsed
options =
    with_argument 0x6b (0x32 ∷ 0x30 ∷ []) (pos 20) (pos 20000000)
    ∷ with_argument 0x73 (0x31 ∷ []) (pos 1) (pos 1000000)
    ∷ flag 0x6f
    ∷ with_argument 0x74 (0x32 ∷ 0x35 ∷ 0x30 ∷ []) (pos 250) (pos 250000000)
    ∷ []

apply_options-InBounds_example : InBounds (apply_options options (configured path none))
apply_options-InBounds_example = apply_options-InBounds options path none

last_index_iff_example : (last_index (replicate 63 path) < 64) ↔ (length (replicate 63 path) < 63)
last_index_iff_example = last_index_iff (replicate 63 path)

init-IsTask_example :
    (p : Profiler) × (init true true 3 path none options 50 ≡ ok p)
    × IsTask p
    × ((k : CallsiteStats) → lookup p.task_callsite_stats k ≡ none)
    × (p.enabled ≡ (apply_options options (configured path none)).enabled)
init-IsTask_example = init-IsTask 3 50 path none options

program : Unit {0}
unfolding default_settings after_last_slash get_base_app_name fill_av last_index configured
    checked_size checked_depth checked_threshold set_stack_depth apply_flag apply_argument
    apply_option apply_options
program = tt

abbrev set_to : Configured
set_to = apply_options options (configured path none)

-- The depth is cut to 8, the size of 1 and the threshold of 250 percent are refused; 63 words overrun.
runs :
    (set_to.settings.stack_depth ≡ 8)
    × (set_to.settings.table_size ≡ 256)
    × (set_to.enabled ≡ false)
    × (set_to.report_print_threshold ≡ 0)
    × (get_base_app_name (some path) ≡ (0x62 ∷ []))
    × (last_index (replicate 63 path) ≡ 64)
unfolding program
runs = (refl, refl, refl, refl, refl, refl)
