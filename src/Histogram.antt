-- ===== src/Histogram.antt =====
-- mpiPi.c: the histograms of collective time and of point-to-point data by communicator and by
-- message size. A communicator enters by the size that `PMPI_Comm_size` gives for it.
pub mod Bins
pub mod Cells
use mpi_pv.Prelude.{
  ℕ, zero, suc, ◌+◌, ◌-◌, ◌/◌, Bool, true, false, ◌&&◌, Option, none, some, List, [], ◌∷◌, ltb,
  ◌==◌, if◌then◌else◌,
}
use mpi_pv.Callsite.{mpi_base}
use mpi_pv.State.{Profiler, Histogram, Histograms}

unfoldable pub init_histogram : ℕ → ℕ → Option (List ℕ) → Histogram
init_histogram first_bin_max size intervals = record {
  first_bin_max = first_bin_max;
  hist_size = size;
  bin_intervals = intervals;
}

-- `while (wv > h->first_bin_max && bin < h->hist_size) { wv >>= 1; bin++; }`; the rounds that
-- `bin < h->hist_size` leaves come first.
unfoldable pub bin_loop : ℕ → ℕ → ℕ → ℕ → ℕ
bin_loop zero max wv bin = bin
bin_loop (suc left) max wv bin =
    let rest = bin_loop left max (wv / 2) (bin + 1) in if ltb max wv then rest else bin

unfoldable pub get_histogram_bin : Histogram → ℕ → ℕ
get_histogram_bin h val = elim h.bin_intervals [
  | none ↦ bin_loop h.hist_size h.first_bin_max val 0
  | some intervals ↦ 0
]

-- `stats[x][y][z] += amount`
abbrev pub add_at : ℕ → ℕ → ℕ → ℕ → Histograms → Histograms
add_at x y z amount stats x' y' z' =
    if x == x' && (y == y' && z == z') then stats x' y' z' + amount else stats x' y' z'

unfoldable pub update_collective_stats : ℕ → ℕ → ℕ → ℕ → Profiler → Profiler
update_collective_stats op dur size comm_size p =
    let op_idx = op - mpi_base in
    let comm_bin = get_histogram_bin p.coll_comm_histogram comm_size in
    let size_bin = get_histogram_bin p.coll_size_histogram size in
    record p { coll_time_stats = add_at op_idx comm_bin size_bin dur p.coll_time_stats }

unfoldable pub update_pt2pt_stats : ℕ → ℕ → ℕ → ℕ → Profiler → Profiler
update_pt2pt_stats op dur size comm_size p =
    let op_idx = op - mpi_base in
    let comm_bin = get_histogram_bin p.pt2pt_comm_histogram comm_size in
    let size_bin = get_histogram_bin p.pt2pt_size_histogram size in
    record p { pt2pt_send_stats = add_at op_idx comm_bin size_bin size p.pt2pt_send_stats }
