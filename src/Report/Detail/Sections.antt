-- ===== src/Report/Detail/Sections.antt =====
-- report.c: the sections on data sent, input and output and remote memory access as a whole.
use mathlib.Core.List.{Perm, Mem}
use mpi_pv.Prelude.{
  ℕ, ◌≡◌, refl, inl, inr, Bool, none, List, [], ◌∷◌, map, keep, ltb, ◌==◌, Bool-cases, ==_iff,
  if◌then◌else◌,
}
use mpi_pv.Hash.{Run, ok, ◌>>=◌, gather}
use mpi_pv.Hash.Invariant.{IsValid}
use mpi_pv.Hash.Gather.{entries, gather-entries}
use mpi_pv.Callsite.{CallsiteStats}
use mpi_pv.Report.{
  Line, heading, Format, Section, callsite_sent_section, callsite_io_section, callsite_rma_section,
  callsite_mess_summary_fmt, callsite_mess_rank_fmt, callsite_io_summary_fmt, callsite_io_rank_fmt,
  Report, sort_by_name_id_rank,
}
use mpi_pv.Report.Order.{IsQsort, Sorted, sort_by_name_id_rank-IsOrder}
use mpi_pv.Report.Top.{Sort}
use mpi_pv.Report.Runs.{OneOp, Grouped-of_Sorted}
use mpi_pv.Report.Detail.{
  no_sums, View, sent_view, io_view, rma_view, size_rank, size_rows, print_all_callsite_sent_info,
  print_all_callsite_io_info, print_all_callsite_rma_info,
}
use mpi_pv.Report.Detail.Site.{site, add_all, test_ne, OneOp-of_Perm}
use mpi_pv.Report.Detail.SizeSites.{is_size_summary, is_size_rank, live, size_due, inside, outside}
use mpi_pv.Report.Detail.SizeRanks.{ranks}

-- What is written for each call site: of its records with something to count, a line for each and a
-- summary if there is one.
abbrev pub WritesSites : View → Format → Format → (ℕ → ℕ) → List CallsiteStats → List Line → Type 0
WritesSites v rf sf op_of av lines =
    ((c : ℕ)
      → keep (is_size_summary c) lines
        ≡ size_due sf (op_of c) c (add_all v (live v (site c av)) no_sums))
    × ((c : ℕ) → keep (is_size_rank c) lines ≡ map (size_rank v rf) (live v (site c av)))

size_rows-WritesSites :
    (v : View) (rf sf : Format) (op_of : ℕ → ℕ) (av : List CallsiteStats)
    → OneOp op_of av
    → Sorted sort_by_name_id_rank av
    → WritesSites v rf sf op_of av (size_rows v rf sf av)
unfolding size_rows size_due
size_rows-WritesSites v rf sf op_of [] o s = (λ c. refl, λ c. refl)
size_rows-WritesSites v rf sf op_of (p ∷ av) o s = (
  λ c. elim (Bool-cases (p.csid == c)) [
    | inl e ↦
        inside v rf sf c op_of p 0 no_sums (p ∷ av) ((==_iff _ _).0 e) (o.0, o)
          (inl refl, Grouped-of_Sorted op_of p av o s) (λ z. refl)
    | inr e ↦
        outside v rf sf c op_of p 0 no_sums (p ∷ av) (test_ne e) (o.0, o)
          (inl refl, Grouped-of_Sorted op_of p av o s) (λ z. refl)
  ],
  λ c. ranks v rf sf c p 0 no_sums (p ∷ av),
)

-- What a section writes, nothing without `gate`.
abbrev pub WritesSection :
    Bool
    → Section
    → View
    → Format
    → Format
    → (ℕ → ℕ)
    → List CallsiteStats
    → Run (List Line)
    → Type 0
WritesSection gate section v rf sf op_of all printed =
    (av : List CallsiteStats) × (lines : List Line) × Perm av all
    × (printed ≡ (if gate then ok (heading section none ∷ lines) else ok []))
    × WritesSites v rf sf op_of av lines

module _ {qsort : Sort} (q : IsQsort qsort) {Good : CallsiteStats → Type 0} (r : Report)
    (valid : IsValid Good r.global_callsite_stats) (op_of : ℕ → ℕ)
    (one : (p : CallsiteStats)
      → Mem p (entries r.global_callsite_stats)
      → p.op ≡ op_of p.csid) where
  section-WritesSection :
      (gate : Bool) (section : Section) (v : View) (rf sf : Format)
      → WritesSection gate section v rf sf op_of (entries r.global_callsite_stats) (
          if gate
          then gather r.global_callsite_stats >>= (λ (ac, av).
            ok (heading section none ∷ size_rows v rf sf (qsort sort_by_name_id_rank av)))
          else ok [])
  section-WritesSection gate section v rf sf =
      let all = entries r.global_callsite_stats in
      let av = qsort sort_by_name_id_rank all in
      let p = q.permutes sort_by_name_id_rank all in
      (
        av,
        size_rows v rf sf av,
        p,
        rw (gather-entries r.global_callsite_stats valid).0 refl,
        size_rows-WritesSites v rf sf op_of av (OneOp-of_Perm op_of all av one p)
            (q.sorts sort_by_name_id_rank all sort_by_name_id_rank-IsOrder),
      )

  -- If `qsort` sorts, the table is valid, and the records of one id are of one operation: each of the
  -- sections on data sent, on input and output and on remote memory access writes, if its total is not
  -- 0, for every call site a line for each record with something to count and, if there is one, one
  -- summary with the sums and extremes of these records; and nothing if its total is 0.
  pub print_all_callsite_sizes-WritesSection :
      WritesSection
        (ltb 0 r.totals.global_mpi_size)
        callsite_sent_section
        sent_view
        callsite_mess_rank_fmt
        callsite_mess_summary_fmt
        op_of
        (entries r.global_callsite_stats)
        (print_all_callsite_sent_info qsort r)
      × WritesSection
          (ltb 0 r.totals.global_mpi_io)
          callsite_io_section
          io_view
          callsite_io_rank_fmt
          callsite_io_summary_fmt
          op_of
          (entries r.global_callsite_stats)
          (print_all_callsite_io_info qsort r)
      × WritesSection
          (ltb 0 r.totals.global_mpi_rma)
          callsite_rma_section
          rma_view
          callsite_io_rank_fmt
          callsite_io_summary_fmt
          op_of
          (entries r.global_callsite_stats)
          (print_all_callsite_rma_info qsort r)
  unfolding print_all_callsite_sent_info print_all_callsite_io_info print_all_callsite_rma_info
  print_all_callsite_sizes-WritesSection = (
    section-WritesSection _ _ _ _ _,
    section-WritesSection _ _ _ _ _,
    section-WritesSection _ _ _ _ _,
  )
