-- ===== src/Tests/ReportRuns.antt =====
-- report.c: the report on two call sites of two tasks.
use mathlib.Core.List.{Perm, Mem, flatten}
use native.Mathlib.Nat.{ℕ_set}
use mpi_pv.Prelude.{
  ℕ, ◌≡◌, ◌≢◌, refl, true, some, List, [], ◌∷◌, arith, All-mem, ltb, map, keep, if◌then◌else◌,
  Ordering, ◌==◌,
}
use mpi_pv.Hash.{HashTable, ok, insert, find, bucket, table_index}
use mpi_pv.Hash.Invariant.{IsValid, empty_table, h_open-IsValid, insert-IsValid}
use mpi_pv.Hash.Gather.{entries}
use mpi_pv.Callsite.{CallsiteStats, src_comparator, express}
use mpi_pv.Sources.{SrcEntry}
use mpi_pv.State.{no_totals, default_settings}
use mpi_pv.Task.{new_record}
use mpi_pv.Report.{
  Report, calc_cov, callsite_time_section, callsite_sent_section, callsite_io_section,
  callsite_rma_section, heading, callsite_mess_rank_fmt, callsite_mess_summary_fmt,
  callsite_io_rank_fmt, callsite_io_summary_fmt, aggregate_time_section, aggregate_sent_section,
  aggregate_io_section, aggregate_rma_section, aggregate_mess_fmt, aggregate_io_fmt, Line,
}
use mpi_pv.Report.Cov.{IsCov, calc_cov-variance}
use mpi_pv.Report.Twenty.{Shows, print_top_sites-Shows}
use mpi_pv.Report.Top.{
  summarized, time_line, size_line, threshold_lines, print_top_time_sites, print_top_sent_sites,
  print_top_io_sites, print_top_rma_sites,
}
use mpi_pv.Report.Detail.{
  print_all_callsite_time_info, print_all_callsite_sent_info, print_all_callsite_io_info,
  print_all_callsite_rma_info, sent_view, io_view, rma_view, time_rank, is_printed,
}
use mpi_pv.Report.Detail.Site.{site}
use mpi_pv.Report.Detail.TimeSites.{is_summary, is_rank, fresh, print_all_callsite_time_info-sites}
use mpi_pv.Report.Detail.Sections.{WritesSection, print_all_callsite_sizes-WritesSection}
use mpi_pv.Tests.TaskRuns.{call}
use mpi_pv.Tests.TaskRuns
use mpi_pv.Tests.Insertion.{insertion, insertion-IsQsort}

calc_cov-variance_example : IsCov (3 ∷ 5 ∷ []) (calc_cov (3 ∷ 5 ∷ 7 ∷ []) 2)
calc_cov-variance_example = calc_cov-variance (3 ∷ 5 ∷ []) (7 ∷ [])

-- A record of one call at the site `csid` by the task `rank`, with some time and data sent.
abbrev pub made : ℕ → ℕ → ℕ → ℕ → CallsiteStats
made csid rank time sent = record (new_record 1 (call 64 0 0)) {
  csid = csid;
  rank = rank;
  count = 1;
  cumulative_time = time;
  max_dur = time;
  min_dur = time;
  cumulative_data_sent = sent;
  max_data_sent = sent;
  min_data_sent = sent;
}

abbrev by_id : CallsiteStats → ℕ
by_id p = p.csid

abbrev pub opened : HashTable CallsiteStats
opened = empty_table 4 by_id src_comparator

abbrev pub three : HashTable CallsiteStats
three = (insert (insert (insert opened (made 1 0 30 8)).1 (made 2 0 10 0)).1 (made 1 1 20 8)).1

abbrev pub Any : CallsiteStats → Type 0
Any p = Unit

pub three-IsValid : IsValid Any three
three-IsValid =
    insert-IsValid _
      (insert-IsValid _
        (insert-IsValid opened (h_open-IsValid 4 by_id src_comparator (omega arith)).1 _ tt) _ tt)
      _ tt

abbrev source : ℕ → SrcEntry
source id = record { id = id; op = 1003; frames = [] }

abbrev pub AnyEntry : SrcEntry → Type 0
AnyEntry e = Unit

abbrev by_number : SrcEntry → SrcEntry → Ordering
by_number a b = express a.id b.id Ordering.eq

abbrev no_sources : HashTable SrcEntry
no_sources = empty_table 4 (λ s. s.id) by_number

abbrev pub two_sources : HashTable SrcEntry
two_sources = (insert (insert no_sources (source 1)).1 (source 2)).1

pub two_sources-IsValid : IsValid AnyEntry two_sources
two_sources-IsValid =
    insert-IsValid _
      (insert-IsValid no_sources
        (h_open-IsValid 4 (λ (s : SrcEntry). s.id) by_number (omega arith)).1 (source 1) tt)
      (source 2) tt

abbrev pub report : Report
report = record {
  size = 2;
  settings = default_settings;
  report_print_threshold = 0;
  totals = record no_totals {
    global_app_time = 100;
    global_mpi_time = 60;
    global_mpi_size = 16;
    global_mpi_sent_count = 2;
  };
  global_task_app_time = 50 ∷ 50 ∷ [];
  global_task_mpi_time = 40 ∷ 20 ∷ [];
  global_task_hostnames = (0x61 ∷ []) ∷ (0x62 ∷ []) ∷ [];
  global_callsite_stats = three;
  global_callsite_stats_agg = three;
  global_mpi_stats_agg = three;
  src_id_cache = two_sources;
  coll_comm_histogram = TaskRuns.fresh.coll_comm_histogram;
  coll_size_histogram = TaskRuns.fresh.coll_size_histogram;
  coll_time_stats = λ x y z. if x == 2 then 7 else 0;
  pt2pt_comm_histogram = TaskRuns.fresh.pt2pt_comm_histogram;
  pt2pt_size_histogram = TaskRuns.fresh.pt2pt_size_histogram;
  pt2pt_send_stats = λ x y z. 0;
}

pub summarized-IsValid : IsValid Any (summarized report)
unfolding default_settings
summarized-IsValid = three-IsValid

abbrev pub op_of : ℕ → ℕ
op_of csid = 1003

pub three-entries : entries three ≡ made 1 1 20 8 ∷ made 1 0 30 8 ∷ made 2 0 10 0 ∷ []
unfolding insert find bucket table_index src_comparator express flatten new_record
three-entries = refl

pub three_one_op : (p : CallsiteStats) → Mem p (entries three) → p.op ≡ op_of p.csid
unfolding new_record
three_one_op =
    All-mem (λ p. p.op ≡ op_of p.csid) (λ p. ℕ_set _ _) (entries three)
      (rw three-entries (refl, (refl, (refl, tt))))

pub three_any : entries three ≢ []
three_any = rw three-entries (λ e. cc)

print_top_sites-Shows_example :
    Shows true aggregate_time_section
      (λ p. p.cumulative_time)
      (time_line report)
      []
      (entries (summarized report))
      (print_top_time_sites insertion report)
    × Shows
        (ltb 0 report.totals.global_mpi_size)
        aggregate_sent_section
        (λ p. p.cumulative_data_sent)
        (size_line aggregate_mess_fmt (λ p. p.cumulative_data_sent) report.totals.global_mpi_size)
        (threshold_lines report.settings.message_count_threshold report.totals)
        (entries (summarized report))
        (print_top_sent_sites insertion report)
    × Shows
        (ltb 0 report.totals.global_mpi_io)
        aggregate_io_section
        (λ p. p.cumulative_io)
        (size_line aggregate_io_fmt (λ p. p.cumulative_io) report.totals.global_mpi_io)
        []
        (entries (summarized report))
        (print_top_io_sites insertion report)
    × Shows
        (ltb 0 report.totals.global_mpi_rma)
        aggregate_rma_section
        (λ p. p.cumulative_rma)
        (size_line aggregate_io_fmt (λ p. p.cumulative_rma) report.totals.global_mpi_rma)
        []
        (entries (summarized report))
        (print_top_rma_sites insertion report)
print_top_sites-Shows_example = print_top_sites-Shows insertion-IsQsort report summarized-IsValid

print_all_callsite_time_info-sites_example :
    (av : List CallsiteStats) × (lines : List Line) × Perm av (entries three)
    × (print_all_callsite_time_info insertion report
        ≡ ok (heading callsite_time_section (some three.count) ∷ lines))
    × ((c : ℕ) → keep (is_summary c) lines ≡ fresh report op_of c (site c av))
    × ((c : ℕ)
        → keep (is_rank c) lines ≡ map (time_rank report) (keep (is_printed report) (site c av)))
print_all_callsite_time_info-sites_example =
    print_all_callsite_time_info-sites insertion-IsQsort report three-IsValid op_of three_one_op
      three_any

print_all_callsite_sizes-WritesSection_example :
    WritesSection
      (ltb 0 report.totals.global_mpi_size)
      callsite_sent_section
      sent_view
      callsite_mess_rank_fmt
      callsite_mess_summary_fmt
      op_of
      (entries three)
      (print_all_callsite_sent_info insertion report)
    × WritesSection
        (ltb 0 report.totals.global_mpi_io)
        callsite_io_section
        io_view
        callsite_io_rank_fmt
        callsite_io_summary_fmt
        op_of
        (entries three)
        (print_all_callsite_io_info insertion report)
    × WritesSection
        (ltb 0 report.totals.global_mpi_rma)
        callsite_rma_section
        rma_view
        callsite_io_rank_fmt
        callsite_io_summary_fmt
        op_of
        (entries three)
        (print_all_callsite_rma_info insertion report)
print_all_callsite_sizes-WritesSection_example =
    print_all_callsite_sizes-WritesSection insertion-IsQsort report three-IsValid op_of three_one_op
