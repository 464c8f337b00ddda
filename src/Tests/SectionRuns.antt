-- ===== src/Tests/SectionRuns.antt =====
-- report.c: the other sections on two call sites of two tasks, and the whole report.
use mathlib.Core.List.{flatten}
use mpi_pv.Prelude.{
  Ordering, ℕ, ◌≡◌, ◌≤◌, ◌<◌, ◌↔◌, true, none, some, List, [], ◌∷◌, arith, ltb, get_or, All,
}
use mpi_pv.Hash.{ok, insert, find, bucket, table_index}
use mpi_pv.Callsite.{CallsiteStats, dbl_max, src_comparator, express}
use mpi_pv.Task.{new_record}
use mpi_pv.Histogram.{get_histogram_bin, init_histogram}
use mpi_pv.Report.{
  sort_by_name_id_rank, callsite_sent_section, callsite_io_section, callsite_rma_section,
  aggregate_collective_section, aggregate_pt2pt_section,
}
use mpi_pv.Report.Concise.{
  is_stored, count_rank, print_concise_callsite_sent_info, print_concise_callsite_io_info,
  print_concise_callsite_rma_info,
}
use mpi_pv.Report.Concise.Entries.{
  groups, after, entry, entries_of, print_concise_callsite_sizes-written,
}
use mpi_pv.Report.Concise.Summaries.{WritesSummaries, print_concise_callsite_sizes-WritesSummaries}
use mpi_pv.Hash.Gather.{entries}
use mpi_pv.Report.TopCells.{
  get_histogram_bin_str, print_top_collective_sent_sites, print_top_pt2pt_sent_sites,
}
use mpi_pv.Report.TopCells.Greatest.{get_histogram_bin_str-get_histogram_bin}
use mpi_pv.Report.TopCells.Rows.{WritesCells, print_top_cells-WritesCells}
use mpi_pv.Report.Tasks.{note_times, no_extremes}
use mpi_pv.Report.Tasks.AppTime.{HasRank, sum_times, note_times-extremes}
use mpi_pv.Report.Coll.{Tasks}
use mpi_pv.Report.Print.{Outside}
use mpi_pv.Names
use mpi_pv.Names.Own.{named_wrappers, named_wrappers-entry}
use mpi_pv.Sources.{strcmp}
use mpi_pv.Tests.Insertion.{sorted, put, insertion, insertion-IsQsort}
use mpi_pv.Tests.WrapperRuns.{arguments}
use mpi_pv.Tests.ReportRuns.{three, report, three-IsValid, op_of, three_one_op}
use mpi_pv.Tests.ReportRuns

named_wrappers-entry_example :
    All (λ (name, w). Names.entry (w arguments).op ≡ some ((w arguments).op, name)) named_wrappers
named_wrappers-entry_example = named_wrappers-entry arguments

get_histogram_bin_str-get_histogram_bin_example :
    (get_histogram_bin (init_histogram 7 32 none) 100 ≡ 4) ↔ (
      ((get_histogram_bin_str (init_histogram 7 32 none) 4).0 ≤ 100)
      × (100 ≤ (get_histogram_bin_str (init_histogram 7 32 none) 4).1))
get_histogram_bin_str-get_histogram_bin_example =
    get_histogram_bin_str-get_histogram_bin 100 4 (omega arith)

print_top_cells-WritesCells_example :
    WritesCells report.totals.global_mpi_size aggregate_collective_section
      report.coll_comm_histogram report.coll_size_histogram report.coll_time_stats
      report.totals.global_mpi_time
      (print_top_collective_sent_sites insertion report)
    × WritesCells report.totals.global_mpi_size aggregate_pt2pt_section report.pt2pt_comm_histogram
        report.pt2pt_size_histogram report.pt2pt_send_stats report.totals.global_mpi_size
        (print_top_pt2pt_sent_sites insertion report)
print_top_cells-WritesCells_example = print_top_cells-WritesCells insertion-IsQsort report

note_times-extremes_example :
    let e = note_times 2 0 (40 ∷ 20 ∷ []) no_extremes in
    ((j : ℕ)
      → j < 2
      → (e.least ≤ get_or (40 ∷ 20 ∷ []) j 0) × (get_or (40 ∷ 20 ∷ []) j 0 ≤ e.greatest))
    × HasRank (40 ∷ 20 ∷ []) e.max_rank 0 e.greatest
    × HasRank (40 ∷ 20 ∷ []) e.min_rank dbl_max e.least
    × (e.total ≡ sum_times 2 0 (40 ∷ 20 ∷ []))
note_times-extremes_example = note_times-extremes 2 (40 ∷ 20 ∷ [])

abbrev first : CallsiteStats
first = ReportRuns.made 1 0 30 8

-- The second task does not have the call site.
abbrev tasks : Tasks
tasks = record { tables = three ∷ ReportRuns.opened ∷ []; collector = 0; cs_buf = first }

abbrev outside : Outside
outside = record {
  sort = insertion;
  sort_entries = insertion;
  sort_places = insertion;
  sort_summaries = λ cmp es. es;
  allocated = true;
  tasks = tasks;
  mpi = record { minloc = λ xs. (0, 0); maxloc = λ xs. (0, 0); sum = λ xs. 0 };
}

print_concise_callsite_sizes-WritesSummaries_example :
    WritesSummaries true callsite_sent_section
      (λ p. p.cumulative_data_sent)
      op_of
      (entries three)
      (print_concise_callsite_sent_info insertion insertion true report)
    × WritesSummaries
        (ltb 0 report.totals.global_mpi_io)
        callsite_io_section
        (λ p. p.cumulative_io)
        op_of
        (entries three)
        (print_concise_callsite_io_info insertion insertion true report)
    × WritesSummaries
        (ltb 0 report.totals.global_mpi_rma)
        callsite_rma_section
        (λ p. p.cumulative_rma)
        op_of
        (entries three)
        (print_concise_callsite_rma_info insertion insertion true report)
unfolding insert find bucket table_index src_comparator express flatten new_record groups after
    entries_of entry is_stored count_rank sorted put sort_by_name_id_rank strcmp Names.op_name
    Names.lookup_table
print_concise_callsite_sizes-WritesSummaries_example =
    print_concise_callsite_sizes-WritesSummaries insertion-IsQsort insertion-IsQsort report
      three-IsValid op_of three_one_op (omega arith) (omega arith) (omega arith)

abbrev as_is : {A : Type 0} → (A → A → Ordering) → List A → List A
as_is cmp xs = xs

-- Data was sent at one call site only, and the concise section on it is left out.
one_site : print_concise_callsite_sent_info as_is as_is true report ≡ ok []
unfolding insert find bucket table_index src_comparator express flatten new_record groups after
    entries_of entry is_stored count_rank
one_site =
    (print_concise_callsite_sizes-written as_is as_is report three-IsValid (omega arith)
      (omega arith) (omega arith)).0
