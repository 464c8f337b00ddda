-- ===== src/Init.antt =====
-- mpiPi.c: `mpiPi_init`. The two outcomes of `malloc`, the rank that `PMPI_Comm_rank` gives, the
-- options that `getopt` gives and the reading of the clock are arguments. Numbers of the global that
-- nothing sets are 0, as it has static storage.
use mpi_pv.Prelude.{ℕ, Bool, Option, none, some, List, if◌then◌else◌, ◌≡◌, refl, true}
use mpi_pv.Hash.{Run, ok, HashTable, ◌>>=◌, h_open, lookup}
use mpi_pv.Hash.Invariant.{empty_table, h_open-IsValid}
use mpi_pv.Callsite.{Text, CallsiteStats, pc_hashkey, pc_comparator}
use mpi_pv.Callsite.Keys.{Total}
use mpi_pv.State.{Histogram, Profiler, no_totals}
use mpi_pv.Histogram.{init_histogram}
use mpi_pv.Options.{Configured, configured, Parsed, apply_options}
use mpi_pv.Options.Bounds.{apply_options-InBounds}
use mpi_pv.Task.Refine.{IsTask}

abbrev no_histogram : Histogram
no_histogram = record { first_bin_max = 0; hist_size = 0; bin_intervals = none }

abbrev started : ℕ → ℕ → Configured → HashTable CallsiteStats → Profiler
started rank now c table =
    let coll =
      if c.settings.do_collective_stats_report then init_histogram 7 32 none else no_histogram in
    let pt2pt =
      if c.settings.do_pt2pt_stats_report then init_histogram 7 32 none else no_histogram in
    record {
      rank = rank;
      settings = c.settings;
      enabled = c.enabled;
      enabled_count = c.enabled_count;
      start_time = if c.enabled then now else 0;
      end_time = 0;
      cumulative_time = 0;
      totals = no_totals;
      task_callsite_stats = table;
      coll_comm_histogram = coll;
      coll_size_histogram = coll;
      coll_time_stats = λ x y z. 0;
      pt2pt_comm_histogram = pt2pt;
      pt2pt_size_histogram = pt2pt;
      pt2pt_send_stats = λ x y z. 0;
    }

unfoldable pub init : Bool → Bool → ℕ → Text → Option Text → List Parsed → ℕ → Run Profiler
init ht_block table_block rank app_name app_full_name options now = do
  let c = apply_options options (configured app_name app_full_name)
  table ←
      h_open ht_block table_block c.settings.table_size (some (pc_hashkey c.settings.stack_depth))
        (some (pc_comparator c.settings.stack_depth))
  ok (started rank now c table)

-- Whatever options there are, `mpiPi_init` does not abort if it gets its memory: the task's table is
-- valid, has the functions by address for the chosen depth, and holds no call site.
pub init-IsTask :
    (rank now : ℕ) (name : Text) (full : Option Text) (os : List Parsed)
    → (p : Profiler) × (init true true rank name full os now ≡ ok p)
      × IsTask p
      × ((k : CallsiteStats) → lookup p.task_callsite_stats k ≡ none)
      × (p.enabled ≡ (apply_options os (configured name full)).enabled)
unfolding init
init-IsTask rank now name full os =
    let c = apply_options os (configured name full) in
    let b = apply_options-InBounds os name full in
    let (opens, valid, empty) =
      h_open-IsValid {Good = Total CallsiteStats} c.settings.table_size
        (pc_hashkey c.settings.stack_depth) (pc_comparator c.settings.stack_depth) b.size in
    (
      started rank now c (
          empty_table c.settings.table_size (pc_hashkey c.settings.stack_depth)
            (pc_comparator c.settings.stack_depth)),
      rw opens,
      record { hf = refl; hc = refl; valid = valid },
      empty,
      refl,
    )
