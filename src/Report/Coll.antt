-- ===== src/Report/Coll.antt =====
-- report.c: the sections on call sites for which the collector asks all tasks, one call site at a time,
-- instead of keeping their records. The tasks run the same loop: here one round of it is a function of
-- the tables of all tasks. `PMPI_Gather` gives the collector one record of each task, by rank; what
-- `PMPI_Reduce` gives is an argument. That the collector sets the rank of its own merged record to
-- its own is left out: nothing reads it. HAVE_MPI_IO is set.
pub mod Sites
use mpi_pv.Prelude.{
  ℕ, zero, suc, ◌+◌, ◌*◌, Ordering, Bool, true, false, Option, none, some, List, [], ◌∷◌, ◌++◌,
  length, ltb, leb, ◌==◌, ◌&&◌, if◌then◌else◌, get_or,
}
use mpi_pv.Hash.{Run, ok, ◌>>=◌, HashTable, lookup, gather}
use mpi_pv.Callsite.{CallsiteStats, dbl_max}
use mpi_pv.Report.{
  text, num, quot, Format, callsite_mess_summary_fmt, callsite_mess_rank_fmt,
  callsite_io_summary_fmt, callsite_io_rank_fmt, callsite_time_concise_fmt,
  callsite_mess_concise_fmt, Section, callsite_time_section, callsite_sent_section,
  callsite_io_section, callsite_rma_section, Line, heading, row, blank, Report, short_name,
  sort_by_cumulative_time, sort_by_cumulative_size, sort_by_cumulative_io, sort_by_cumulative_rma,
  sort_by_name_id_rank,
}
use mpi_pv.Report.Top.{Sort}
use mpi_pv.Report.Detail.{
  Sums, no_sums, View, time_view, sent_view, io_view, rma_view, add_record, time_summary, time_rank,
  size_summary, size_rank,
}

-- The tables of the tasks by rank, the rank of the collector, and what its `cs_buf` holds, into which
-- nothing is received.
pub record Tasks : Type 0 where
  pub tables : List (HashTable CallsiteStats)
  pub collector : ℕ
  pub cs_buf : CallsiteStats

-- `cs_buf` for a task that does not have the call site: the fields that are set. The sections on
-- remote memory access set `cumulativeRMA` too. The section on data sent sets `op` instead of `rank`, and
-- reads neither of such a task.
unfoldable pub absent : ℕ → Bool → ℕ → CallsiteStats → CallsiteStats
absent least rma rank cs_buf = record cs_buf {
  rank = rank;
  count = 0;
  cumulative_time = 0;
  cumulative_time_squared = 0;
  max_dur = 0;
  min_dur = least;
  cumulative_data_sent = 0;
  cumulative_io = 0;
  cumulative_rma = if rma then 0 else cs_buf.cumulative_rma;
  max_data_sent = 0;
  min_data_sent = least;
  max_io = 0;
  min_io = least;
  arbitrary_message_count = 0;
}

abbrev found_or : CallsiteStats → Option CallsiteStats → CallsiteStats
found_or d none = d
found_or d (some p) = p

-- The broadcast of the record `p`, the search of each task for it, and the gathering.
unfoldable pub task_data :
    ℕ → Bool → Tasks → CallsiteStats → ℕ → List (HashTable CallsiteStats) → List CallsiteStats
task_data least rma tasks p rank [] = []
task_data least rma tasks p rank (t ∷ ts) =
    let cs_buf = if rank == tasks.collector then tasks.cs_buf else p in
    found_or (absent least rma rank cs_buf) (lookup t (record p { rank = rank }))
    ∷ task_data least rma tasks p (rank + 1) ts

abbrev pub last_op : ℕ → List CallsiteStats → ℕ
last_op op [] = op
last_op op (d ∷ ds) = last_op d.op ds

unfoldable pub all_sums : View → List CallsiteStats → Sums → Sums
all_sums v [] s = s
all_sums v (d ∷ ds) s = all_sums v ds (add_record v d s)

-- `count > 0 && (100.0 * cumulativeTime / global_task_mpi_time[rank]) >= reportPrintThreshold`; 0 / 0
-- is not, and what is divided by 0 else is
unfoldable pub is_reported : Report → CallsiteStats → Bool
is_reported r d =
    let task_time = get_or r.global_task_mpi_time d.rank 0 in
    ltb 0 d.count
    && (if task_time == 0
        then ltb 0 d.cumulative_time
        else leb (r.report_print_threshold * task_time) (100 * 1000000 * d.cumulative_time))

unfoldable pub coll_time_ranks : Report → CallsiteStats → List CallsiteStats → List Line
coll_time_ranks r p [] = []
coll_time_ranks r p (d ∷ ds) =
    (if is_reported r d then time_rank r (record d { op = p.op; csid = p.csid }) ∷ [] else [])
    ++ coll_time_ranks r p ds

unfoldable pub coll_time_site : Report → Tasks → CallsiteStats → List Line
coll_time_site r tasks p =
    let ds = task_data 0 false tasks p 0 tasks.tables in
    let s = all_sums time_view ds no_sums in
    coll_time_ranks r p ds
    ++ (if ltb 0 s.count then time_summary r (last_op p.op ds) p.csid s ∷ blank ∷ [] else [])

-- The records that have something to count, in the sections on sizes
unfoldable pub counting : View → List CallsiteStats → List CallsiteStats
counting v [] = []
counting v (d ∷ ds) = let rest = counting v ds in if ltb 0 (v.cumulative d) then d ∷ rest else rest

-- The section on data sent takes the names from the collector's record, the other two from the tasks'.
unfoldable pub coll_size_ranks :
    View → Format → Bool → CallsiteStats → List CallsiteStats → List Line
coll_size_ranks v rank_fmt own_name p [] = []
coll_size_ranks v rank_fmt own_name p (d ∷ ds) =
    size_rank v rank_fmt (record d { op = if own_name then p.op else d.op; csid = p.csid })
    ∷ coll_size_ranks v rank_fmt own_name p ds

unfoldable pub coll_size_site :
    View → Bool → Format → Format → Bool → Tasks → CallsiteStats → List Line
coll_size_site v rma rank_fmt summary_fmt own_name tasks p =
    let ds = task_data 0 rma tasks p 0 tasks.tables in
    let s = all_sums v (counting v ds) no_sums in
    if ltb 0 (v.cumulative p)
    then coll_size_ranks v rank_fmt own_name p (counting v ds)
      ++ ((if ltb 0 s.cumulative
            then size_summary summary_fmt (if own_name then p.op else last_op p.op ds) p.csid s ∷ []
            else [])
          ++ blank ∷ [])
    else []

unfoldable pub for_sites : (CallsiteStats → List Line) → List CallsiteStats → List Line
for_sites lines [] = []
for_sites lines (p ∷ av) = lines p ++ for_sites lines av

module _ (qsort : Sort) (allocated : Bool) (tasks : Tasks) where
  unfoldable pub coll_print_all_callsite_time_info : Report → Run (List Line)
  coll_print_all_callsite_time_info r = do
    (ac, av) ← gather r.global_callsite_stats_agg
    ok (
        if allocated
        then heading callsite_time_section (some r.totals.global_time_callsite_count)
          ∷ for_sites (coll_time_site r tasks) (qsort sort_by_name_id_rank av)
        else [])

  unfoldable pub coll_print_all_callsite_sent_info : Report → Run (List Line)
  coll_print_all_callsite_sent_info r =
      if ltb 0 r.totals.global_mpi_sent_count
      then (do
        (ac, av) ← gather r.global_callsite_stats_agg
        ok (
            if allocated
            then heading callsite_sent_section none
              ∷ for_sites
                  (coll_size_site sent_view false callsite_mess_rank_fmt callsite_mess_summary_fmt
                    true tasks)
                  (qsort sort_by_name_id_rank av)
            else []))
      else ok []

  unfoldable pub coll_print_all_callsite_io_info : Report → Run (List Line)
  coll_print_all_callsite_io_info r =
      if ltb 0 r.totals.global_mpi_io
      then (do
        (ac, av) ← gather r.global_callsite_stats_agg
        ok (
            if allocated
            then heading callsite_io_section none
              ∷ for_sites
                  (coll_size_site io_view false callsite_io_rank_fmt callsite_io_summary_fmt false
                    tasks)
                  (qsort sort_by_name_id_rank av)
            else []))
      else ok []

  unfoldable pub coll_print_all_callsite_rma_info : Report → Run (List Line)
  coll_print_all_callsite_rma_info r =
      if ltb 0 r.totals.global_mpi_rma
      then (do
        (ac, av) ← gather r.global_callsite_stats_agg
        ok (
            if allocated
            then heading callsite_rma_section none
              ∷ for_sites
                  (coll_size_site rma_view true callsite_io_rank_fmt callsite_io_summary_fmt false
                    tasks)
                  (qsort sort_by_name_id_rank av)
            else []))
      else ok []
