-- ===== src/Report/TopCells.antt =====
-- report.c: the sections with the twenty greatest cells of the histograms.
-- A pointer into a histogram is the place of its cell, so that the search of the matrix for the cell
-- that a pointer points to gives this place.
pub mod Greatest
pub mod Rows
use mpi_pv.Prelude.{
  ℕ, zero, suc, ◌+◌, ◌-◌, ◌*◌, ◌^◌, Ordering, none, List, [], ◌∷◌, ◌++◌, ltb, ◌==◌, if◌then◌else◌,
}
use mpi_pv.Callsite.{mpi_base, express}
use mpi_pv.State.{Histogram, Histograms}
use mpi_pv.Report.{
  Cell, text, num, quot, range, histogram_fmt, Section, aggregate_collective_section,
  aggregate_pt2pt_section, Line, heading, row, no_operations, Report, short_name,
}
use mpi_pv.Report.Top.{SortOf}

-- `get_histogram_bin_str` before it is printed: the least and the greatest value of a bin. The shifts do
-- not wrap, as they do not in the source for a bin that some `int` is counted in.
unfoldable pub get_histogram_bin_str : Histogram → ℕ → ℕ × ℕ
get_histogram_bin_str h v =
    let least = (h.first_bin_max + 1) * 2 ^ (v - 1) in
    if v == 0 then (0, h.first_bin_max) else (least, least * 2 - 1)

-- `&stats[x][y][z]`
pub record Place : Type 0 where
  pub x : ℕ
  pub y : ℕ
  pub z : ℕ

abbrev pub value : Histograms → Place → ℕ
value stats c = stats c.x c.y c.z

-- The nested loops, each with the rounds that are left
unfoldable pub places_z : Histograms → ℕ → ℕ → ℕ → ℕ → List Place
places_z stats x y zero z = []
places_z stats x y (suc left) z =
    (if ltb 0 (stats x y z) then record { x = x; y = y; z = z } ∷ [] else [])
    ++ places_z stats x y left (z + 1)

unfoldable pub places_y : Histograms → ℕ → ℕ → ℕ → ℕ → List Place
places_y stats sizes x zero y = []
places_y stats sizes x (suc left) y =
    places_z stats x y sizes 0 ++ places_y stats sizes x left (y + 1)

unfoldable pub places_x : Histograms → ℕ → ℕ → ℕ → ℕ → List Place
places_x stats comms sizes zero x = []
places_x stats comms sizes (suc left) x =
    places_y stats sizes x comms 0 ++ places_x stats comms sizes left (x + 1)

-- `mpiPi_DEF_END - mpiPi_BASE`
abbrev pub all_call_count : ℕ
all_call_count = 161

unfoldable pub histogram_sort_by_value : Histograms → Place → Place → Ordering
histogram_sort_by_value stats a b = express (value stats b) (value stats a) Ordering.eq

abbrev range_cell : ℕ × ℕ → Cell
range_cell (least, greatest) = range least greatest

unfoldable pub cell_line : Histogram → Histogram → Histograms → ℕ → Place → Line
cell_line comms sizes stats total c = row histogram_fmt (
    text (short_name (mpi_base + c.x))
    ∷ quot (value stats c * 100) total
    ∷ range_cell (get_histogram_bin_str comms c.y)
    ∷ range_cell (get_histogram_bin_str sizes c.z)
    ∷ [])

-- `for (i = 0; (i < 20) && (i < result_count); i++)`, which ends at a cell that is 0
unfoldable pub cell_rows : ℕ → Histograms → (Place → Line) → List Place → List Line
cell_rows zero stats line cs = []
cell_rows (suc left) stats line [] = []
cell_rows (suc left) stats line (c ∷ cs) =
    let rest = cell_rows left stats line cs in if value stats c == 0 then [] else line c ∷ rest

-- The message that there is nothing to report is due to `result_count == 0`.
abbrev pub or_none : List Place → List Line → List Line
or_none [] ls = no_operations ∷ []
or_none (c ∷ cs) ls = ls

module _ (qsort : SortOf Place) where
  unfoldable pub print_top_collective_sent_sites : Report → List Line
  print_top_collective_sent_sites r =
      let found =
        places_x r.coll_time_stats r.coll_comm_histogram.hist_size r.coll_size_histogram.hist_size
          all_call_count 0 in
      if ltb 0 r.totals.global_mpi_size
      then heading aggregate_collective_section none
        ∷ or_none found (
            cell_rows 20 r.coll_time_stats
              (cell_line r.coll_comm_histogram r.coll_size_histogram r.coll_time_stats
                r.totals.global_mpi_time)
              (qsort (histogram_sort_by_value r.coll_time_stats) found))
      else []

  unfoldable pub print_top_pt2pt_sent_sites : Report → List Line
  print_top_pt2pt_sent_sites r =
      let found =
        places_x r.pt2pt_send_stats r.pt2pt_comm_histogram.hist_size
          r.pt2pt_size_histogram.hist_size all_call_count 0 in
      if ltb 0 r.totals.global_mpi_size
      then heading aggregate_pt2pt_section none
        ∷ or_none found (
            cell_rows 20 r.pt2pt_send_stats
              (cell_line r.pt2pt_comm_histogram r.pt2pt_size_histogram r.pt2pt_send_stats
                r.totals.global_mpi_size)
              (qsort (histogram_sort_by_value r.pt2pt_send_stats) found))
      else []
