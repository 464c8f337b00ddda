-- ===== src/Matrix.antt =====
-- mpiPi.c: `mpiPi_mergeCollectiveStats` and `mpiPi_mergept2ptStats`, which sum the histograms of all
-- tasks. `PMPI_Reduce` stores the sums on the collector only; what the blocks of `malloc` hold before
-- is an argument.
pub mod Cells
use mpi_pv.Prelude.{
  ℕ, zero, suc, ◌+◌, ◌*◌, Bool, ◌&&◌, List, [], ◌∷◌, ◌++◌, ltb, if◌then◌else◌, get_or,
}
use mpi_pv.State.{Profiler, Histograms}

-- mpiPi_DEF_END - mpiPi_BASE
abbrev pub operations : ℕ
operations = 161

-- `for (x = 0; x < n; x++)`, with the rounds left first, over what each round appends
unfoldable pub for_each : ℕ → ℕ → (ℕ → List ℕ) → List ℕ
for_each zero x body = []
for_each (suc left) x body = body x ++ for_each left (suc x) body

-- `coll_time_local[i++] = stats[x][y][z]`, from the innermost loop outwards
abbrev pub cell_of : Histograms → ℕ → ℕ → ℕ → List ℕ
cell_of stats x y z = stats x y z ∷ []

abbrev pub row : Histograms → ℕ → ℕ → List ℕ
row stats x y = for_each 32 0 (cell_of stats x y)

abbrev pub plane : Histograms → ℕ → List ℕ
plane stats x = for_each 32 0 (row stats x)

unfoldable pub flat : Histograms → List ℕ
flat stats = for_each operations 0 (plane stats)

-- MPI_SUM, number by number; the rest of a longer block is what it is.
abbrev pub added : List ℕ → List ℕ → List ℕ
added [] ys = ys
added (x ∷ xs) [] = x ∷ xs
added (x ∷ xs) (y ∷ ys) = (x + y) ∷ added xs ys

unfoldable pub reduce : List (List ℕ) → List ℕ
reduce [] = []
reduce (l ∷ ls) = added l (reduce ls)

-- `stats[x][y][z] = results[i++]`, where `i` counts the rounds of the three loops
unfoldable pub unflat : List ℕ → Histograms → Histograms
unflat results stats x y z =
    if ltb x operations && (ltb y 32 && ltb z 32)
    then get_or results ((x * 32 + y) * 32 + z) 0
    else stats x y z

abbrev pub flats : (Profiler → Histograms) → List Profiler → List (List ℕ)
flats stats [] = []
flats stats (q ∷ qs) = flat (stats q) ∷ flats stats qs

-- What a task has after the reduction, from the histograms of all tasks.
unfoldable pub merged_stats :
    Bool → List ℕ → (Profiler → Histograms) → List Profiler → Histograms → Histograms
merged_stats is_collector uninitialised stats tasks own =
    unflat (if is_collector then reduce (flats stats tasks) else uninitialised) own

unfoldable pub merge_collective_stats : Bool → List ℕ → List Profiler → Profiler → Profiler
merge_collective_stats is_collector uninitialised tasks p =
    if p.settings.do_collective_stats_report
    then record p {
      coll_time_stats =
          merged_stats is_collector uninitialised (λ q. q.coll_time_stats) tasks p.coll_time_stats;
    }
    else p

unfoldable pub merge_pt2pt_stats : Bool → List ℕ → List Profiler → Profiler → Profiler
merge_pt2pt_stats is_collector uninitialised tasks p =
    if p.settings.do_pt2pt_stats_report
    then record p {
      pt2pt_send_stats =
          merged_stats is_collector uninitialised (λ q. q.pt2pt_send_stats) tasks
            p.pt2pt_send_stats;
    }
    else p
