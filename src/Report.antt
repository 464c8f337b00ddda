-- ===== src/Report.antt =====
-- report.c: what the collector writes. A line of the report is its format, a row of
-- `mpiP_Report_Formats` or a literal of the source, with the arguments of `fprintf`; the conversion of
-- these to characters, which `reportFormat` chooses, is the C library's. A quotient of two `double`s
-- is kept as the two numbers, and the root of one likewise. Times are in microseconds, so that
-- `global_app_time * 1e6` of the source is `global_app_time` here.
-- `qsort` is a parameter, for each type that is sorted.
pub mod Cov
pub mod Top
pub mod Order
pub mod Twenty
pub mod Runs
pub mod Detail
pub mod Concise
pub mod TopCells
pub mod Tasks
pub mod Coll
pub mod CollConcise
pub mod Print
use Prim.Native.String.{String}
use mpi_pv.Prelude.{
  ℕ, zero, suc, ◌+◌, ◌-◌, ◌*◌, Ordering, Bool, true, false, Option, none, some, List, [], ◌∷◌, ◌++◌,
  ltb, leb, ◌==◌, ◌&&◌, ◌||◌, not, if◌then◌else◌, get_or,
}
use mpi_pv.Prelude.Int.{ℤ, pos, negsuc}
use mpi_pv.Hash.{Run, ok, abort, ◌>>=◌, overrun, HashTable, gather}
use mpi_pv.Callsite.{CallsiteStats, Text, express, mpi_base}
use mpi_pv.State.{Settings, Totals, Histogram, Histograms}
use mpi_pv.Sources.{SrcEntry, strcmp}
use mpi_pv.Names.{op_name}

-- An argument of `fprintf`.
pub data Cell : Type 0 where
  text : Text → Cell
  num : ℕ → Cell
  quot : ℕ → ℕ → Cell
  root : ℕ → ℕ → Cell
  -- the "*" of a summary in place of a rank
  star : Cell
  -- an `int` that is -1 or has no value
  unset : Cell
  -- the least and the greatest value of a bin
  range : ℕ → ℕ → Cell

-- The rows of `mpiP_Report_Formats`, and formats that stand in the code.
pub data Format : Type 0 where
  mpi_time_fmt mpi_time_summary_fmt aggregate_time_fmt aggregate_cov_time_fmt : Format
  aggregate_mess_fmt aggregate_io_fmt callsite_time_summary_fmt callsite_time_rank_fmt : Format
  callsite_mess_summary_fmt callsite_mess_rank_fmt callsite_io_summary_fmt : Format
  callsite_io_rank_fmt callsite_time_concise_fmt callsite_mess_concise_fmt histogram_fmt : Format
  task_stats_fmt threshold_fmt address_fmt source_fmt assignment_fmt : Format

-- The sections of the report, by what `print_section_heading` prints.
pub data Section : Type 0 where
  mpi_time_section task_statistics_section callsites_section aggregate_time_section : Section
  aggregate_sent_section aggregate_collective_section aggregate_pt2pt_section : Section
  aggregate_io_section aggregate_rma_section callsite_time_section callsite_sent_section : Section
  callsite_io_section callsite_rma_section end_section : Section

-- A heading has the number that it prints, if any. The line of column titles follows from the section
-- and is part of it.
pub data Line : Type 0 where
  heading : Section → Option ℕ → Line
  row : Format → List Cell → Line
  blank : Line
  no_operations : Line
  header : Line

-- What report.c reads of the global `mpiPi`. `report_print_threshold` is in millionths of a percent.
pub record Report : Type 0 where
  pub size : ℕ
  pub settings : Settings
  pub report_print_threshold : ℕ
  pub totals : Totals
  pub global_task_app_time : List ℕ
  pub global_task_mpi_time : List ℕ
  pub global_task_hostnames : List Text
  pub global_callsite_stats : HashTable CallsiteStats
  pub global_callsite_stats_agg : HashTable CallsiteStats
  pub global_mpi_stats_agg : HashTable CallsiteStats
  pub src_id_cache : HashTable SrcEntry
  pub coll_comm_histogram : Histogram
  pub coll_size_histogram : Histogram
  pub coll_time_stats : Histograms
  pub pt2pt_comm_histogram : Histogram
  pub pt2pt_size_histogram : Histogram
  pub pt2pt_send_stats : Histograms

-- `&(mpiPi.lookup[op - mpiPi_BASE].name[4])`
abbrev drop4 : Text → Text
drop4 (a ∷ b ∷ c ∷ d ∷ name) = name
drop4 name = []

unfoldable pub short_name : ℕ → Text
short_name op = drop4 (op_name op)

unfoldable pub sort_by_id : SrcEntry → SrcEntry → Ordering
sort_by_id a b = express a.id b.id Ordering.eq

-- The order is descending, so the compares are reversed.
unfoldable pub sort_by_cumulative_time : CallsiteStats → CallsiteStats → Ordering
sort_by_cumulative_time a b = express b.cumulative_time a.cumulative_time Ordering.eq

unfoldable pub sort_by_cumulative_size : CallsiteStats → CallsiteStats → Ordering
sort_by_cumulative_size a b = express b.cumulative_data_sent a.cumulative_data_sent Ordering.eq

unfoldable pub sort_by_cumulative_io : CallsiteStats → CallsiteStats → Ordering
sort_by_cumulative_io a b = express b.cumulative_io a.cumulative_io Ordering.eq

unfoldable pub sort_by_cumulative_rma : CallsiteStats → CallsiteStats → Ordering
sort_by_cumulative_rma a b = express b.cumulative_rma a.cumulative_rma Ordering.eq

unfoldable pub sort_by_name_id_rank : CallsiteStats → CallsiteStats → Ordering
sort_by_name_id_rank csp_1 csp_2 = elim (strcmp (op_name csp_1.op) (op_name csp_2.op)) [
  | Ordering.lt ↦ Ordering.lt
  | Ordering.gt ↦ Ordering.gt
  | Ordering.eq ↦ express csp_1.csid csp_2.csid (express csp_1.rank csp_2.rank Ordering.eq)
]

-- The loops of `calc_COV` over the first `left` of the data.
unfoldable pub sum_data : ℕ → List ℕ → ℕ
sum_data zero xs = 0
sum_data (suc left) [] = 0
sum_data (suc left) (x ∷ xs) = x + sum_data left xs

-- `(data[idx] - avrg) * (data[idx] - avrg)`, times the square of the size
abbrev pub square_distance : ℕ → ℕ → ℕ
square_distance a b = ((a - b) + (b - a)) * ((a - b) + (b - a))

unfoldable pub sum_squares : ℕ → ℕ → ℕ → List ℕ → ℕ
sum_squares zero size tot xs = 0
sum_squares (suc left) size tot [] = 0
sum_squares (suc left) size tot (x ∷ xs) =
    square_distance (size * x) tot + sum_squares left size tot xs

-- `calc_COV`: with `avrg = tot / size` and `var` divided by `size - 1`, the square of `std / avrg` is
-- the sum of the squares of `size * data[idx] - tot` over `(size - 1) * tot * tot`.
unfoldable pub calc_cov : List ℕ → ℕ → Cell
calc_cov site_data size =
    let tot = sum_data size site_data in
    if leb size 1
    then quot 0 1
    else if ltb 0 tot
    then root (sum_squares size size tot site_data) ((size - 1) * (tot * tot))
    else quot 0 1

-- `total > 0 ? 100.0 * part / total : 0`
abbrev pub percentage : ℕ → ℕ → Cell
percentage part total = if ltb 0 total then quot (100 * part) total else quot 0 1
