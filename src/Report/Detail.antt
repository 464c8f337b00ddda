-- ===== src/Report/Detail.antt =====
-- report.c: the sections of the verbose report that list every rank's record of every call site, with
-- a summary for each call site.
pub mod Site
pub mod TimeSites
pub mod SizeSites
pub mod SizeRanks
pub mod Sections
use mpi_pv.Prelude.{
  ℕ, ◌+◌, ◌*◌, min, max, Bool, Option, none, some, List, [], ◌∷◌, ◌++◌, ltb, leb, ◌==◌, ◌&&◌, not,
  if◌then◌else◌, get_or,
}
use mpi_pv.Hash.{Run, ok, abort, ◌>>=◌, underrun, HashTable, gather}
use mpi_pv.Callsite.{CallsiteStats, dbl_max}
use mpi_pv.Report.{
  text, num, quot, star, Format, callsite_time_summary_fmt, callsite_time_rank_fmt,
  callsite_mess_summary_fmt, callsite_mess_rank_fmt, callsite_io_summary_fmt, callsite_io_rank_fmt,
  Section, callsite_time_section, callsite_sent_section, callsite_io_section, callsite_rma_section,
  Line, heading, row, blank, Report, short_name, sort_by_name_id_rank, percentage,
}
use mpi_pv.Report.Top.{Sort}

-- The variables sCount, sMin, sMax and sCumulative
pub record Sums : Type 0 where
  pub count : ℕ
  pub least : ℕ
  pub greatest : ℕ
  pub cumulative : ℕ

abbrev pub no_sums : Sums
no_sums = record { count = 0; least = dbl_max; greatest = 0; cumulative = 0 }

-- The fields of a record that a section is about
pub record View : Type 0 where
  pub cumulative : CallsiteStats → ℕ
  pub greatest : CallsiteStats → ℕ
  pub least : CallsiteStats → ℕ

abbrev pub time_view : View
time_view = record {
  cumulative = λ p. p.cumulative_time;
  greatest = λ p. p.max_dur;
  least = λ p. p.min_dur;
}

abbrev pub sent_view : View
sent_view = record {
  cumulative = λ p. p.cumulative_data_sent;
  greatest = λ p. p.max_data_sent;
  least = λ p. p.min_data_sent;
}

abbrev pub io_view : View
io_view = record {
  cumulative = λ p. p.cumulative_io;
  greatest = λ p. p.max_io;
  least = λ p. p.min_io;
}

abbrev pub rma_view : View
rma_view = record {
  cumulative = λ p. p.cumulative_rma;
  greatest = λ p. p.max_rma;
  least = λ p. p.min_rma;
}

unfoldable pub add_record : View → CallsiteStats → Sums → Sums
add_record v p s = record {
  count = s.count + p.count;
  least = min (v.least p) s.least;
  greatest = max (v.greatest p) s.greatest;
  cumulative = s.cumulative + v.cumulative p;
}

unfoldable pub time_summary : Report → ℕ → ℕ → Sums → Line
time_summary r op csid s = row callsite_time_summary_fmt (
    text (short_name op)
    ∷ num csid
    ∷ star
    ∷ num s.count
    ∷ quot s.greatest 1000
    ∷ quot s.cumulative (s.count * 1000)
    ∷ quot s.least 1000
    ∷ percentage s.cumulative r.totals.global_app_time
    ∷ percentage s.cumulative r.totals.global_mpi_time
    ∷ [])

unfoldable pub time_rank : Report → CallsiteStats → Line
time_rank r p = row callsite_time_rank_fmt (
    text (short_name p.op)
    ∷ num p.csid
    ∷ num p.rank
    ∷ num p.count
    ∷ quot p.max_dur 1000
    ∷ quot p.cumulative_time (p.count * 1000)
    ∷ quot p.min_dur 1000
    ∷ quot (100 * p.cumulative_time) (get_or r.global_task_app_time p.rank 0)
    ∷ quot (100 * p.cumulative_time) (get_or r.global_task_mpi_time p.rank 0)
    ∷ [])

-- `global_task_mpi_time[rank] != 0 && (100.0 * cumulativeTime / global_task_mpi_time[rank])
-- >= reportPrintThreshold`
unfoldable pub is_printed : Report → CallsiteStats → Bool
is_printed r p =
    let task_time = get_or r.global_task_mpi_time p.rank 0 in
    not (task_time == 0)
    && leb (r.report_print_threshold * task_time) (100 * 1000000 * p.cumulative_time)

-- The loop, with `av[i - 1]`. Before the first record this is the record itself, whose id it is
-- compared with only if `i != 0`.
unfoldable pub time_loop : Report → CallsiteStats → Sums → List CallsiteStats → List Line
time_loop r prev s [] = time_summary r prev.op prev.csid s ∷ []
time_loop r prev s (p ∷ av) =
    let next = not (p.csid == prev.csid) in
    (if next then time_summary r prev.op prev.csid s ∷ blank ∷ [] else [])
    ++ ((if is_printed r p then time_rank r p ∷ [] else [])
        ++ time_loop r p (add_record time_view p (if next then no_sums else s)) av)

-- The summary after the loop reads `av[ac - 1]`.
unfoldable pub time_rows : Report → List CallsiteStats → Run (List Line)
time_rows r [] = abort underrun
time_rows r (p ∷ av) = ok (time_loop r p no_sums (p ∷ av))

unfoldable pub size_summary : Format → ℕ → ℕ → Sums → Line
size_summary format op csid s = row format (
    text (short_name op)
    ∷ num csid
    ∷ star
    ∷ num s.count
    ∷ num s.greatest
    ∷ quot s.cumulative s.count
    ∷ num s.least
    ∷ num s.cumulative
    ∷ [])

unfoldable pub size_rank : View → Format → CallsiteStats → Line
size_rank v format p = row format (
    text (short_name p.op)
    ∷ num p.csid
    ∷ num p.rank
    ∷ num p.count
    ∷ num (v.greatest p)
    ∷ quot (v.cumulative p) p.count
    ∷ num (v.least p)
    ∷ num (v.cumulative p)
    ∷ [])

-- The loop of the other three sections, with `lastcsid`. With nothing accumulated no summary is due.
unfoldable pub size_loop :
    View → Format → Format → CallsiteStats → ℕ → Sums → List CallsiteStats → List Line
size_loop v rank_fmt summary_fmt prev last s [] =
    if ltb 0 s.cumulative then size_summary summary_fmt prev.op prev.csid s ∷ [] else []
size_loop v rank_fmt summary_fmt prev last s (p ∷ av) =
    let next = ltb 0 s.cumulative && not (p.csid == prev.csid) in
    let s' = if next then no_sums else s in
    let counts = ltb 0 (v.cumulative p) in
    (if next then size_summary summary_fmt prev.op prev.csid s ∷ [] else [])
    ++ ((if counts && (not (last == 0) && not (last == p.csid)) then blank ∷ [] else [])
        ++ ((if counts then size_rank v rank_fmt p ∷ [] else [])
            ++ size_loop v rank_fmt summary_fmt p (if counts then p.csid else last)
                (if counts then add_record v p s' else s') av))

unfoldable pub size_rows : View → Format → Format → List CallsiteStats → List Line
size_rows v rank_fmt summary_fmt [] = []
size_rows v rank_fmt summary_fmt (p ∷ av) = size_loop v rank_fmt summary_fmt p 0 no_sums (p ∷ av)

module _ (qsort : Sort) where
  unfoldable pub print_all_callsite_time_info : Report → Run (List Line)
  print_all_callsite_time_info r = do
    (ac, av) ← gather r.global_callsite_stats
    rows ← time_rows r (qsort sort_by_name_id_rank av)
    ok (heading callsite_time_section (some ac) ∷ rows)

  unfoldable pub print_all_callsite_sent_info : Report → Run (List Line)
  print_all_callsite_sent_info r =
      if ltb 0 r.totals.global_mpi_size
      then (do
        (ac, av) ← gather r.global_callsite_stats
        ok (
            heading callsite_sent_section none
            ∷ size_rows sent_view callsite_mess_rank_fmt callsite_mess_summary_fmt
                (qsort sort_by_name_id_rank av)))
      else ok []

  unfoldable pub print_all_callsite_io_info : Report → Run (List Line)
  print_all_callsite_io_info r =
      if ltb 0 r.totals.global_mpi_io
      then (do
        (ac, av) ← gather r.global_callsite_stats
        ok (
            heading callsite_io_section none
            ∷ size_rows io_view callsite_io_rank_fmt callsite_io_summary_fmt
                (qsort sort_by_name_id_rank av)))
      else ok []

  unfoldable pub print_all_callsite_rma_info : Report → Run (List Line)
  print_all_callsite_rma_info r =
      if ltb 0 r.totals.global_mpi_rma
      then (do
        (ac, av) ← gather r.global_callsite_stats
        ok (
            heading callsite_rma_section none
            ∷ size_rows rma_view callsite_io_rank_fmt callsite_io_summary_fmt
                (qsort sort_by_name_id_rank av)))
      else ok []
