-- ===== src/Histogram/Cells.antt =====
-- mpiPi.c: what the cells of the two histograms hold after any sequence of calls.
use mpi_pv.Prelude.{ℕ, ◌+◌, ◌-◌, ◌≡◌, ◌∙◌, Bool, ◌&&◌, List, [], ◌∷◌, arith, ◌==◌, if◌then◌else◌}
use mpi_pv.Callsite.{mpi_base}
use mpi_pv.State.{Profiler, Histogram}
use mpi_pv.Histogram.{get_histogram_bin, update_collective_stats, update_pt2pt_stats}

-- One call of `mpiPi_update_collective_stats` or `mpiPi_update_pt2pt_stats`.
pub record Sample : Type 0 where
  pub op : ℕ
  pub dur : ℕ
  pub size : ℕ
  pub comm_size : ℕ

-- The sample belongs to the cell of an operation, a communicator bin and a size bin.
abbrev pub in_cell : Histogram → Histogram → ℕ → ℕ → ℕ → Sample → Bool
in_cell comm_histogram size_histogram x y z s =
    (s.op - mpi_base) == x
    && (get_histogram_bin comm_histogram s.comm_size == y
        && get_histogram_bin size_histogram s.size == z)

abbrev pub sum_in : (Sample → Bool) → (Sample → ℕ) → List Sample → ℕ
sum_in here amount [] = 0
sum_in here amount (s ∷ ss) = (if here s then amount s else 0) + sum_in here amount ss

unfoldable pub collective_all : Profiler → List Sample → Profiler
collective_all p [] = p
collective_all p (s ∷ ss) =
    collective_all (update_collective_stats s.op s.dur s.size s.comm_size p) ss

unfoldable pub pt2pt_all : Profiler → List Sample → Profiler
pt2pt_all p [] = p
pt2pt_all p (s ∷ ss) = pt2pt_all (update_pt2pt_stats s.op s.dur s.size s.comm_size p) ss

-- After any calls each cell of the collective histogram has grown by the durations of exactly the
-- calls whose operation, communicator size and message size fall into it.
pub collective_all-sum_in :
    (ss : List Sample) (p : Profiler) (x y z : ℕ)
    → (collective_all p ss).coll_time_stats x y z
      ≡ p.coll_time_stats x y z
        + sum_in (in_cell p.coll_comm_histogram p.coll_size_histogram x y z) (λ s. s.dur) ss
unfolding collective_all update_collective_stats
collective_all-sum_in [] p x y z = omega arith
collective_all-sum_in (s ∷ ss) p x y z =
    collective_all-sum_in ss (update_collective_stats s.op s.dur s.size s.comm_size p) x y z
    ∙ ground arith

-- After any calls each cell of the point-to-point histogram has grown by the message sizes of exactly
-- the calls whose operation, communicator size and message size fall into it.
pub pt2pt_all-sum_in :
    (ss : List Sample) (p : Profiler) (x y z : ℕ)
    → (pt2pt_all p ss).pt2pt_send_stats x y z
      ≡ p.pt2pt_send_stats x y z
        + sum_in (in_cell p.pt2pt_comm_histogram p.pt2pt_size_histogram x y z) (λ s. s.size) ss
unfolding pt2pt_all update_pt2pt_stats
pt2pt_all-sum_in [] p x y z = omega arith
pt2pt_all-sum_in (s ∷ ss) p x y z =
    pt2pt_all-sum_in ss (update_pt2pt_stats s.op s.dur s.size s.comm_size p) x y z ∙ ground arith
