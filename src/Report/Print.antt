-- ===== src/Report/Print.antt =====
-- report.c: `mpiPi_profile_print`, the whole report of one style. The collector writes; the other tasks
-- take part in the sections of the collective report only.
pub mod Headings
pub mod Contents
pub mod Sections
pub mod Complete
use mpi_pv.Prelude.{ℕ, Bool, true, false, List, [], ◌∷◌, ◌++◌, ◌&&◌, not, none, if◌then◌else◌}
use mpi_pv.Hash.{Run, ok, abort, ◌>>=◌}
use mpi_pv.State.{ReportStyle, verbose, concise, both}
use mpi_pv.Sources.{SrcEntry}
use mpi_pv.Report.{Line, heading, blank, header, end_section, Report}
use mpi_pv.Report.Top.{
  Sort, SortOf, print_top_time_sites, print_top_sent_sites, print_top_io_sites, print_top_rma_sites,
}
use mpi_pv.Report.TopCells.{Place, print_top_collective_sent_sites, print_top_pt2pt_sent_sites}
use mpi_pv.Report.Tasks.{
  print_task_assignment, print_verbose_task_info, print_concise_task_info, print_callsites,
}
use mpi_pv.Report.Detail.{
  print_all_callsite_time_info, print_all_callsite_sent_info, print_all_callsite_io_info,
  print_all_callsite_rma_info,
}
use mpi_pv.Report.Concise.{
  SortSummaries, print_concise_callsite_time_info, print_concise_callsite_sent_info,
  print_concise_callsite_io_info, print_concise_callsite_rma_info,
}
use mpi_pv.Report.Coll.{
  Tasks, coll_print_all_callsite_time_info, coll_print_all_callsite_sent_info,
  coll_print_all_callsite_io_info, coll_print_all_callsite_rma_info,
}
use mpi_pv.Report.CollConcise.{
  Reductions, coll_print_concise_callsite_time_info, coll_print_concise_callsite_sent_info,
  coll_print_concise_callsite_io_info, coll_print_concise_callsite_rma_info,
}

-- What the report uses besides the collector's state: `qsort` for each type, whether `malloc` gives the
-- buffers of the sections, the tasks, and the reductions.
pub record Outside : Type 0 where
  pub sort : Sort
  pub sort_entries : SortOf SrcEntry
  pub sort_places : SortOf Place
  pub sort_summaries : SortSummaries
  pub allocated : Bool
  pub tasks : Tasks
  pub mpi : Reductions

-- One section after the other
infixr 60 ◌then_print◌
abbrev pub ◌then_print◌ : Run (List Line) → Run (List Line) → Run (List Line)
a then_print b = a >>= λ l. b >>= λ k. ok (l ++ k)

abbrev pub when : Bool → Run (List Line) → Run (List Line)
when b m = if b then m else ok []

-- The sections that both styles have.
unfoldable pub print_tops : Outside → Report → Run (List Line)
print_tops o r =
    print_top_time_sites o.sort r
    then_print print_top_sent_sites o.sort r
    then_print when r.settings.do_collective_stats_report
        (ok (print_top_collective_sent_sites o.sort_places r))
    then_print when r.settings.do_pt2pt_stats_report
        (ok (print_top_pt2pt_sent_sites o.sort_places r))
    then_print print_top_io_sites o.sort r
    then_print print_top_rma_sites o.sort r

unfoldable pub profile_print_concise : Outside → Report → Run (List Line)
profile_print_concise o r =
    let (r', info) = print_concise_task_info r in
    let detail = r.settings.print_callsite_detail in
    ok (blank ∷ info)
    then_print print_tops o r'
    then_print when (not r.settings.collective_report && detail) (
        print_callsites o.sort_entries r'
        then_print print_concise_callsite_time_info o.sort o.sort_summaries o.allocated r'
        then_print print_concise_callsite_sent_info o.sort o.sort_summaries o.allocated r'
        then_print print_concise_callsite_io_info o.sort o.sort_summaries o.allocated r'
        then_print print_concise_callsite_rma_info o.sort o.sort_summaries o.allocated r')
    then_print when (r.settings.collective_report && detail) (
        print_callsites o.sort_entries r'
        then_print coll_print_concise_callsite_time_info o.sort o.mpi o.tasks r'
        then_print coll_print_concise_callsite_sent_info o.sort o.mpi o.tasks r'
        then_print coll_print_concise_callsite_io_info o.sort o.mpi o.tasks r'
        then_print coll_print_concise_callsite_rma_info o.sort o.mpi o.tasks r')

unfoldable pub profile_print_verbose : Outside → Report → Run (List Line)
profile_print_verbose o r =
    let (r', info) = print_verbose_task_info r in
    let detail = r.settings.print_callsite_detail in
    ok (print_task_assignment 0 r.global_task_hostnames ++ blank ∷ info)
    then_print when detail (print_callsites o.sort_entries r')
    then_print print_tops o r'
    then_print when (detail && r.settings.collective_report) (
        coll_print_all_callsite_time_info o.sort o.allocated o.tasks r'
        then_print coll_print_all_callsite_sent_info o.sort o.allocated o.tasks r'
        then_print coll_print_all_callsite_io_info o.sort o.allocated o.tasks r'
        then_print coll_print_all_callsite_rma_info o.sort o.allocated o.tasks r')
    then_print when (detail && not r.settings.collective_report) (
        print_all_callsite_time_info o.sort r'
        then_print print_all_callsite_sent_info o.sort r'
        then_print print_all_callsite_io_info o.sort r'
        then_print print_all_callsite_rma_info o.sort r')

abbrev body : ReportStyle → Outside → Report → Run (List Line)
body verbose o r = profile_print_verbose o r
body concise o r = profile_print_concise o r
body both o r = ok []

-- What is left of the state: the time of the application changes.
unfoldable pub profile_printed : ReportStyle → Report → Report
profile_printed verbose r = (print_verbose_task_info r).0
profile_printed concise r = (print_concise_task_info r).0
profile_printed both r = r

-- `header` stands for the lines of `mpiPi_print_report_header`.
unfoldable pub profile_print : ReportStyle → Outside → Report → Run (Report × List Line)
profile_print style o r =
    (ok (header ∷ []) then_print body style o r then_print ok (heading end_section none ∷ []))
    >>= λ lines. ok (profile_printed style r, lines)
