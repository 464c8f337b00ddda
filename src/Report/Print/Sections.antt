-- ===== src/Report/Print/Sections.antt =====
-- report.c: each section of the verbose report is written, with its heading.
use mathlib.Core.List.{Perm}
use mathlib.Core.List.Perm
use mpi_pv.Prelude.{
  ◌≡◌, ◌≢◌, refl, sym, true, some, List, [], ◌∷◌, ◌++◌, not, ◌&&◌, ltb, ◌==◌, Bool-cases, inl, inr,
}
use mpi_pv.Hash.{ok}
use mpi_pv.Hash.Gather.{entries, gather-entries}
use mpi_pv.Callsite.{CallsiteStats}
use mpi_pv.Sources.{SrcEntry}
use mpi_pv.Report.{
  Line, heading, blank, mpi_time_section, callsites_section, aggregate_time_section,
  aggregate_sent_section, aggregate_collective_section, aggregate_pt2pt_section,
  aggregate_io_section, aggregate_rma_section, callsite_time_section, callsite_sent_section,
  callsite_io_section, callsite_rma_section, Report, sort_by_name_id_rank,
}
use mpi_pv.Report.TopCells.{print_top_collective_sent_sites, print_top_pt2pt_sent_sites}
use mpi_pv.Report.Print.Contents.{on, begins, buffered, gated, Writes, IsReady, Reorders}
use mpi_pv.Report.Print.Headings.{
  headings-append, Plain, none_begins, Plain-append, time_tops-Plain, size_tops-Plain,
  threshold_lines-Plain, task_time_rows-Plain, print_task_assignment-Plain, cells-Plain,
  callsite_lines-Plain, time_loop-Plain, size_rows-Plain, coll_size_site-Plain,
  coll_time_site-Plain, for_sites-Plain,
}
use mpi_pv.Report.Top.{
  summarized, print_top_time_sites, print_top_sent_sites, print_top_io_sites, print_top_rma_sites,
}
use mpi_pv.Report.Tasks.{print_task_assignment, print_verbose_task_info, print_callsites}
use mpi_pv.Report.Detail.{
  no_sums, time_rows, print_all_callsite_time_info, print_all_callsite_sent_info,
  print_all_callsite_io_info, print_all_callsite_rma_info,
}
use mpi_pv.Report.Coll.{
  coll_print_all_callsite_time_info, coll_print_all_callsite_sent_info,
  coll_print_all_callsite_io_info, coll_print_all_callsite_rma_info,
}
use mpi_pv.Report.Print.{Outside}

time_rows-Plain :
    (r : Report) (all av : List CallsiteStats)
    → all ≢ []
    → Perm av all
    → (ls : List Line) × (time_rows r av ≡ ok ls) × Plain ls
unfolding time_rows
time_rows-Plain r all [] any p = absurd (any (sym (Perm.nil-eq p)))
time_rows-Plain r all (x ∷ av) any p = (_, refl, time_loop-Plain r x no_sums (x ∷ av))

module _ (o : Outside) where
  pub collective-Writes :
      (r : Report)
      → Writes
          (ok (print_top_collective_sent_sites o.sort_places r))
          (on (ltb 0 r.totals.global_mpi_size) (aggregate_collective_section ∷ []))
  unfolding print_top_collective_sent_sites
  collective-Writes r =
      (_, refl, buffered (ltb 0 r.totals.global_mpi_size) _ _ (cells-Plain _ _ _ _ _ _))

  pub pt2pt-Writes :
      (r : Report)
      → Writes
          (ok (print_top_pt2pt_sent_sites o.sort_places r))
          (on (ltb 0 r.totals.global_mpi_size) (aggregate_pt2pt_section ∷ []))
  unfolding print_top_pt2pt_sent_sites
  pt2pt-Writes r =
      (_, refl, buffered (ltb 0 r.totals.global_mpi_size) _ _ (cells-Plain _ _ _ _ _ _))

-- The lines before the first section have no heading.
pub opening-Writes :
    (r : Report)
    → Writes
        (ok (
          print_task_assignment 0 r.global_task_hostnames ++ blank ∷ (print_verbose_task_info r).1))
        (mpi_time_section ∷ [])
unfolding print_verbose_task_info
opening-Writes r =
    let names = print_task_assignment-Plain 0 r.global_task_hostnames in
    let rows = Plain-append (task_time_rows-Plain r r.size 0) (none_begins refl) in
    (
      _,
      refl,
      rw (headings-append (print_task_assignment 0 r.global_task_hostnames) _, names.begins)
          (begins rows),
    )

module _ (o : Outside) {Good GoodAgg : CallsiteStats → Type 0} {GoodSrc : SrcEntry → Type 0} where
  pub top_time-Writes :
      (r : Report)
      → IsReady Good GoodAgg GoodSrc r
      → Writes (print_top_time_sites o.sort r) (aggregate_time_section ∷ [])
  unfolding print_top_time_sites
  top_time-Writes r v =
      rw (gather-entries (summarized r) v.top).0 (_, refl, begins (time_tops-Plain r _))

  pub top_sent-Writes :
      (r : Report)
      → IsReady Good GoodAgg GoodSrc r
      → Writes
          (print_top_sent_sites o.sort r)
          (on (ltb 0 r.totals.global_mpi_size) (aggregate_sent_section ∷ []))
  unfolding print_top_sent_sites
  top_sent-Writes r v = gated (ltb 0 r.totals.global_mpi_size) (
      rw (gather-entries (summarized r) v.top).0
        (_, refl, begins (Plain-append (size_tops-Plain _ _ _ _) (threshold_lines-Plain r))))

  pub top_io-Writes :
      (r : Report)
      → IsReady Good GoodAgg GoodSrc r
      → Writes
          (print_top_io_sites o.sort r)
          (on (ltb 0 r.totals.global_mpi_io) (aggregate_io_section ∷ []))
  unfolding print_top_io_sites
  top_io-Writes r v =
      gated (ltb 0 r.totals.global_mpi_io)
        (rw (gather-entries (summarized r) v.top).0 (_, refl, begins (size_tops-Plain _ _ _ _)))

  pub top_rma-Writes :
      (r : Report)
      → IsReady Good GoodAgg GoodSrc r
      → Writes
          (print_top_rma_sites o.sort r)
          (on (ltb 0 r.totals.global_mpi_rma) (aggregate_rma_section ∷ []))
  unfolding print_top_rma_sites
  top_rma-Writes r v =
      gated (ltb 0 r.totals.global_mpi_rma)
        (rw (gather-entries (summarized r) v.top).0 (_, refl, begins (size_tops-Plain _ _ _ _)))

  pub sent_info-Writes :
      (r : Report)
      → IsReady Good GoodAgg GoodSrc r
      → Writes
          (print_all_callsite_sent_info o.sort r)
          (on (ltb 0 r.totals.global_mpi_size) (callsite_sent_section ∷ []))
  unfolding print_all_callsite_sent_info
  sent_info-Writes r v = gated (ltb 0 r.totals.global_mpi_size) (
      rw (gather-entries r.global_callsite_stats v.stats).0
        (_, refl, begins (size_rows-Plain _ _ _ _)))

  pub io_info-Writes :
      (r : Report)
      → IsReady Good GoodAgg GoodSrc r
      → Writes
          (print_all_callsite_io_info o.sort r)
          (on (ltb 0 r.totals.global_mpi_io) (callsite_io_section ∷ []))
  unfolding print_all_callsite_io_info
  io_info-Writes r v = gated (ltb 0 r.totals.global_mpi_io) (
      rw (gather-entries r.global_callsite_stats v.stats).0
        (_, refl, begins (size_rows-Plain _ _ _ _)))

  pub rma_info-Writes :
      (r : Report)
      → IsReady Good GoodAgg GoodSrc r
      → Writes
          (print_all_callsite_rma_info o.sort r)
          (on (ltb 0 r.totals.global_mpi_rma) (callsite_rma_section ∷ []))
  unfolding print_all_callsite_rma_info
  rma_info-Writes r v = gated (ltb 0 r.totals.global_mpi_rma) (
      rw (gather-entries r.global_callsite_stats v.stats).0
        (_, refl, begins (size_rows-Plain _ _ _ _)))

  pub coll_time-Writes :
      (r : Report)
      → IsReady Good GoodAgg GoodSrc r
      → Writes
          (coll_print_all_callsite_time_info o.sort o.allocated o.tasks r)
          (on o.allocated (callsite_time_section ∷ []))
  unfolding coll_print_all_callsite_time_info
  coll_time-Writes r v =
      rw (gather-entries r.global_callsite_stats_agg v.agg).0
        (_, refl, buffered o.allocated _ _ (for_sites-Plain _ _ (coll_time_site-Plain r o.tasks)))

  pub coll_sent-Writes :
      (r : Report)
      → IsReady Good GoodAgg GoodSrc r
      → Writes
          (coll_print_all_callsite_sent_info o.sort o.allocated o.tasks r)
          (on (ltb 0 r.totals.global_mpi_sent_count) (on o.allocated (callsite_sent_section ∷ [])))
  unfolding coll_print_all_callsite_sent_info
  coll_sent-Writes r v = gated (ltb 0 r.totals.global_mpi_sent_count) (
      rw (gather-entries r.global_callsite_stats_agg v.agg).0 (
        _,
        refl,
        buffered o.allocated _ _ (for_sites-Plain _ _ (coll_size_site-Plain _ _ _ _ _ o.tasks)),
      ))

  pub coll_io-Writes :
      (r : Report)
      → IsReady Good GoodAgg GoodSrc r
      → Writes
          (coll_print_all_callsite_io_info o.sort o.allocated o.tasks r)
          (on (ltb 0 r.totals.global_mpi_io) (on o.allocated (callsite_io_section ∷ [])))
  unfolding coll_print_all_callsite_io_info
  coll_io-Writes r v = gated (ltb 0 r.totals.global_mpi_io) (
      rw (gather-entries r.global_callsite_stats_agg v.agg).0 (
        _,
        refl,
        buffered o.allocated _ _ (for_sites-Plain _ _ (coll_size_site-Plain _ _ _ _ _ o.tasks)),
      ))

  pub coll_rma-Writes :
      (r : Report)
      → IsReady Good GoodAgg GoodSrc r
      → Writes
          (coll_print_all_callsite_rma_info o.sort o.allocated o.tasks r)
          (on (ltb 0 r.totals.global_mpi_rma) (on o.allocated (callsite_rma_section ∷ [])))
  unfolding coll_print_all_callsite_rma_info
  coll_rma-Writes r v = gated (ltb 0 r.totals.global_mpi_rma) (
      rw (gather-entries r.global_callsite_stats_agg v.agg).0 (
        _,
        refl,
        buffered o.allocated _ _ (for_sites-Plain _ _ (coll_size_site-Plain _ _ _ _ _ o.tasks)),
      ))

  pub time_info-Writes :
      (r : Report)
      → Reorders o.sort
      → IsReady Good GoodAgg GoodSrc r
      → (r.settings.print_callsite_detail && not r.settings.collective_report) ≡ true
      → Writes (print_all_callsite_time_info o.sort r) (callsite_time_section ∷ [])
  unfolding print_all_callsite_time_info
  time_info-Writes r q v due =
      let all = entries r.global_callsite_stats in
      let (lines, e, plain) =
        time_rows-Plain r all (o.sort sort_by_name_id_rank all) (v.some_stats due)
          (q sort_by_name_id_rank all) in
      (
        heading callsite_time_section (some r.global_callsite_stats.count) ∷ lines,
        rw ((gather-entries r.global_callsite_stats v.stats).0, e) refl,
        begins plain,
      )

  pub callsites-Writes :
      (r : Report)
      → IsReady Good GoodAgg GoodSrc r
      → Writes
          (print_callsites o.sort_entries r)
          (on (not (r.settings.stack_depth == 0)) (callsites_section ∷ []))
  unfolding print_callsites
  callsites-Writes r v = elim (Bool-cases (r.settings.stack_depth == 0)) [
    | inl e ↦ rw e ([], refl, refl)
    | inr e ↦
        rw (e, (gather-entries r.src_id_cache v.sources).0)
          (_, refl, begins (callsite_lines-Plain r.settings.stack_depth _))
  ]
