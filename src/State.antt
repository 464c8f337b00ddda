-- ===== src/State.antt =====
-- mpiPi.h: the global `mpiPi`, its settings, its totals and the state of one task, and how
-- `mpiPi_init` (mpiPi.c) sets them. An `int` that holds 0 or 1 is a Bool.
use mpi_pv.Prelude.{ℕ, Bool, true, false, Option, List, [], ◌∷◌}
use mpi_pv.Prelude.Int.{ℤ, negsuc}
use mpi_pv.Hash.{HashTable}
use mpi_pv.Callsite.{CallsiteStats, Text}

-- `enum mpiPi_report_style`
pub data ReportStyle : Type 0 where
  verbose concise both : ReportStyle

-- `MPIP_REPORT_FORMAT_TYPE`
pub data ReportFormat : Type 0 where
  sci_format flt_format : ReportFormat

-- What the MPIP environment variable can set.
pub record Settings : Type 0 where
  pub output_dir : Text
  pub table_size : ℕ
  pub stack_depth : ℕ
  pub base_names : Bool
  pub report_format : ReportFormat
  pub report_style : ReportStyle
  pub calc_cov : Bool
  pub do_lookup : Bool
  pub message_count_threshold : ℤ
  pub print_callsite_detail : Bool
  pub collective_report : Bool
  pub disable_finalize_report : Bool
  pub do_collective_stats_report : Bool
  pub do_pt2pt_stats_report : Bool

-- The `global_` numbers, which the collector sums over all call sites.
pub record Totals : Type 0 where
  pub global_app_time : ℕ
  pub global_mpi_time : ℕ
  pub global_mpi_size : ℕ
  pub global_mpi_io : ℕ
  pub global_mpi_rma : ℕ
  pub global_mpi_msize_threshold_count : ℕ
  pub global_mpi_sent_count : ℕ
  pub global_time_callsite_count : ℕ

abbrev pub no_totals : Totals
no_totals = record {
  global_app_time = 0;
  global_mpi_time = 0;
  global_mpi_size = 0;
  global_mpi_io = 0;
  global_mpi_rma = 0;
  global_mpi_msize_threshold_count = 0;
  global_mpi_sent_count = 0;
  global_time_callsite_count = 0;
}

-- `mpiPi_histogram_t`; `bin_intervals` is NULL or an array.
pub record Histogram : Type 0 where
  pub first_bin_max : ℕ
  pub hist_size : ℕ
  pub bin_intervals : Option (List ℕ)

-- `double [mpiPi_DEF_END - mpiPi_BASE][32][32]`
abbrev pub Histograms : Type 0
Histograms = ℕ → ℕ → ℕ → ℕ

-- What a task keeps while the program runs.
pub record Profiler : Type 0 where
  pub rank : ℕ
  pub settings : Settings
  pub enabled : Bool
  pub enabled_count : ℕ
  pub start_time : ℕ
  pub end_time : ℕ
  pub cumulative_time : ℕ
  pub totals : Totals
  pub task_callsite_stats : HashTable CallsiteStats
  pub coll_comm_histogram : Histogram
  pub coll_size_histogram : Histogram
  pub coll_time_stats : Histograms
  pub pt2pt_comm_histogram : Histogram
  pub pt2pt_size_histogram : Histogram
  pub pt2pt_send_stats : Histograms

-- The defaults of `mpiPi_init`, for a build with the verbose report as default and without
-- COLLECTIVE_REPORT_DEFAULT (mpiPconfig.h). `mpiPi_getenv` sets `outputDir`.
unfoldable pub default_settings : Settings
default_settings = record {
  output_dir = 0x2e ∷ [];
  table_size = 256;
  stack_depth = 1;
  base_names = false;
  report_format = sci_format;
  report_style = verbose;
  calc_cov = true;
  do_lookup = true;
  message_count_threshold = negsuc 0;
  print_callsite_detail = true;
  collective_report = false;
  disable_finalize_report = false;
  do_collective_stats_report = false;
  do_pt2pt_stats_report = false;
}
