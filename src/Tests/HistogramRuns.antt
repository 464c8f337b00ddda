-- ===== src/Tests/HistogramRuns.antt =====
-- mpiPi.c: bins and cells of the two histograms.
use mpi_pv.Prelude.{◌≡◌, ◌<◌, ◌≤◌, ◌*◌, ◌+◌, ◌^◌, ◌⊎◌, refl, true, none, List, [], ◌∷◌, arith}
use mpi_pv.Histogram.{init_histogram, bin_loop, get_histogram_bin}
use mpi_pv.Histogram.Bins.{get_histogram_bin_brackets}
use mpi_pv.Histogram.Cells.{Sample, in_cell, sum_in, collective_all, collective_all-sum_in}
use mpi_pv.State.{Profiler}
use mpi_pv.Matrix.{merge_collective_stats}
use mpi_pv.Matrix.Cells.{sum_over, merge_collective_stats-sum_over}
use mpi_pv.Tests.TaskRuns.{fresh}

get_histogram_bin_brackets_example :
    let bin = get_histogram_bin (init_histogram 7 32 none) 1000 in
    (bin < 29) × (1000 < 8 * 2 ^ bin) × ((bin ≡ 0) ⊎ (4 * 2 ^ bin ≤ 1000))
get_histogram_bin_brackets_example = get_histogram_bin_brackets 1000 (omega arith)

bins :
    (get_histogram_bin (init_histogram 7 32 none) 7 ≡ 0)
    × (get_histogram_bin (init_histogram 7 32 none) 8 ≡ 1)
    × (get_histogram_bin (init_histogram 7 32 none) 1000 ≡ 7)
unfolding get_histogram_bin init_histogram bin_loop
bins = (refl, refl, refl)

abbrev samples : List Sample
samples =
    record { op = 1004; dur = 5; size = 8; comm_size = 4 }
    ∷ record { op = 1004; dur = 7; size = 9; comm_size = 4 }
    ∷ record { op = 1004; dur = 1; size = 800; comm_size = 4 }
    ∷ []

collective_all-sum_in_example :
    (collective_all fresh samples).coll_time_stats 4 0 1
    ≡ fresh.coll_time_stats 4 0 1
      + sum_in
          (in_cell fresh.coll_comm_histogram fresh.coll_size_histogram 4 0 1)
          (λ s. s.dur)
          samples
collective_all-sum_in_example = collective_all-sum_in samples fresh 4 0 1

cell :
    sum_in (in_cell fresh.coll_comm_histogram fresh.coll_size_histogram 4 0 1) (λ s. s.dur) samples
    ≡ 12
unfolding get_histogram_bin init_histogram bin_loop
cell = refl

abbrev reporting : Profiler
reporting = record fresh {
  settings = record fresh.settings {
    do_collective_stats_report = true;
    do_pt2pt_stats_report = true;
  };
}

-- Two tasks, of which the second has samples.
abbrev tasks : List Profiler
tasks = reporting ∷ collective_all reporting samples ∷ []

merge_collective_stats-sum_over_example :
    (merge_collective_stats true [] tasks reporting).coll_time_stats 4 0 1
    ≡ sum_over (λ q. q.coll_time_stats) tasks 4 0 1
merge_collective_stats-sum_over_example =
    merge_collective_stats-sum_over 4 0 1 (omega arith) (omega arith) (omega arith) [] tasks
      reporting refl
