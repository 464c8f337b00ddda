-- ===== src/Report/CollConcise.antt =====
-- report.c: the concise sections for which the collector asks all tasks for their part in one call site
-- after the other. The results of `PMPI_Reduce` are functions that are arguments.
use mpi_pv.Prelude.{
  ℕ, zero, suc, ◌+◌, ◌*◌, Bool, true, false, some, List, [], ◌∷◌, ltb, ◌==◌, if◌then◌else◌,
}
use mpi_pv.Hash.{Run, ok, ◌>>=◌, gather}
use mpi_pv.Callsite.{CallsiteStats, dbl_max}
use mpi_pv.Report.{
  text, num, quot, Format, callsite_time_concise_fmt, callsite_mess_concise_fmt, Section,
  callsite_time_section, callsite_sent_section, callsite_io_section, callsite_rma_section, Line,
  heading, row, Report, short_name, sort_by_cumulative_time, sort_by_cumulative_size,
  sort_by_cumulative_io, sort_by_cumulative_rma,
}
use mpi_pv.Report.Top.{Sort}
use mpi_pv.Report.Coll.{Tasks, task_data}

-- What `PMPI_Reduce` gives of a value and a rank of each task (MPI_MINLOC, MPI_MAXLOC), and of a number
-- of each (MPI_SUM).
pub record Reductions : Type 0 where
  pub minloc : List (ℕ × ℕ) → ℕ × ℕ
  pub maxloc : List (ℕ × ℕ) → ℕ × ℕ
  pub sum : List ℕ → ℕ

-- The values that the tasks give, from rank `rank` on
unfoldable pub local_min : (CallsiteStats → ℕ) → ℕ → List CallsiteStats → List (ℕ × ℕ)
local_min f rank [] = []
local_min f rank (d ∷ ds) = (if ltb 0 (f d) then f d else dbl_max, rank) ∷ local_min f (rank + 1) ds

unfoldable pub local_max : (CallsiteStats → ℕ) → ℕ → List CallsiteStats → List (ℕ × ℕ)
local_max f rank [] = []
local_max f rank (d ∷ ds) = (f d, rank) ∷ local_max f (rank + 1) ds

abbrev pub values : (CallsiteStats → ℕ) → List CallsiteStats → List ℕ
values f [] = []
values f (d ∷ ds) = f d ∷ values f ds

abbrev flag : (CallsiteStats → ℕ) → CallsiteStats → ℕ
flag f d = if ltb 0 (f d) then 1 else 0

-- One line of a section; `scale` is 1000 for milliseconds and 1 for bytes, and `counts` the field by
-- which a task is counted.
unfoldable pub coll_concise_line :
    Reductions
    → (CallsiteStats → ℕ)
    → (CallsiteStats → ℕ)
    → Format
    → ℕ
    → CallsiteStats
    → List CallsiteStats
    → Line
coll_concise_line mpi f counts format scale p ds =
    let (max_val, max_rank) = mpi.maxloc (local_max f 0 ds) in
    let (min_val, min_rank) = mpi.minloc (local_min f 0 ds) in
    let tasks = mpi.sum (values (flag counts) ds) in
    row format (
      text (short_name p.op)
      ∷ num p.csid
      ∷ num tasks
      ∷ quot max_val scale
      ∷ quot (mpi.sum (values f ds)) (tasks * scale)
      ∷ quot min_val scale
      ∷ num max_rank
      ∷ num min_rank
      ∷ [])

unfoldable pub callsite_count : (CallsiteStats → ℕ) → List CallsiteStats → ℕ
callsite_count f [] = 0
callsite_count f (p ∷ av) = (if ltb 0 (f p) then 1 else 0) + callsite_count f av

-- `left` rounds, each of which goes on to the next site that is not 0
unfoldable pub next_sites : (CallsiteStats → ℕ) → ℕ → List CallsiteStats → List CallsiteStats
next_sites f zero av = []
next_sites f (suc left) [] = []
next_sites f (suc left) (p ∷ av) = elim (f p == 0) [
  | true ↦ next_sites f (suc left) av
  | false ↦ p ∷ next_sites f left av
]

unfoldable pub concise_lines :
    (CallsiteStats → List CallsiteStats → Line) → Bool → Tasks → List CallsiteStats → List Line
concise_lines line rma tasks [] = []
concise_lines line rma tasks (p ∷ av) =
    line p (task_data dbl_max rma tasks p 0 tasks.tables) ∷ concise_lines line rma tasks av

abbrev counted_section : Section → ℕ → List Line → List Line
counted_section section n lines = if ltb 0 n then heading section (some n) ∷ lines else lines

module _ (qsort : Sort) (mpi : Reductions) (tasks : Tasks) where
  unfoldable pub coll_print_concise_callsite_time_info : Report → Run (List Line)
  coll_print_concise_callsite_time_info r = do
    (ac, av) ← gather r.global_callsite_stats_agg
    ok (
        heading callsite_time_section (some ac)
        ∷ concise_lines
            (coll_concise_line mpi (λ d. d.cumulative_time) (λ d. d.count) callsite_time_concise_fmt
              1000)
            false tasks (qsort sort_by_cumulative_time av))

  abbrev coll_concise_sizes : Section → (CallsiteStats → ℕ) → Bool → List CallsiteStats → List Line
  coll_concise_sizes section f rma av = counted_section section (callsite_count f av) (
      concise_lines (coll_concise_line mpi f f callsite_mess_concise_fmt 1) rma tasks
        (next_sites f (callsite_count f av) av))

  unfoldable pub coll_print_concise_callsite_sent_info : Report → Run (List Line)
  coll_print_concise_callsite_sent_info r = do
    (ac, av) ← gather r.global_callsite_stats_agg
    ok (
        coll_concise_sizes callsite_sent_section (λ p. p.cumulative_data_sent) false
          (qsort sort_by_cumulative_size av))

  unfoldable pub coll_print_concise_callsite_io_info : Report → Run (List Line)
  coll_print_concise_callsite_io_info r = do
    (ac, av) ← gather r.global_callsite_stats_agg
    ok (
        coll_concise_sizes callsite_io_section (λ p. p.cumulative_io) false
          (qsort sort_by_cumulative_io av))

  unfoldable pub coll_print_concise_callsite_rma_info : Report → Run (List Line)
  coll_print_concise_callsite_rma_info r = do
    (ac, av) ← gather r.global_callsite_stats_agg
    ok (
        coll_concise_sizes callsite_rma_section (λ p. p.cumulative_rma) true
          (qsort sort_by_cumulative_rma av))
