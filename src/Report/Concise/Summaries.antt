-- ===== src/Report/Concise/Summaries.antt =====
-- report.c: the concise sections on data sent, input and output and remote memory access as a whole.
use mathlib.Core.Path.{subst}
use mathlib.Core.List.{Perm, Mem}
use mpi_pv.Prelude.{
  ℕ, ◌≤◌, ◌≡◌, refl, sym, ◌⊎◌, inl, inr, Bool, true, none, some, List, [], ◌∷◌, map, keep, All,
  length, ltb, ◌==◌, Bool-cases, if◌then◌else◌, arith,
}
use mpi_pv.Hash.{Run, ok}
use mpi_pv.Hash.Invariant.{IsValid}
use mpi_pv.Hash.Gather.{entries}
use mpi_pv.Callsite.{CallsiteStats, dbl_max}
use mpi_pv.Report.{
  Section, callsite_sent_section, callsite_io_section, callsite_rma_section, Line, heading, Report,
  sort_by_name_id_rank,
}
use mpi_pv.Report.Top.{Sort}
use mpi_pv.Report.Order.{IsOrder, IsQsort, Sorted, sort_by_name_id_rank-IsOrder, descending-IsOrder}
use mpi_pv.Report.Detail.Site.{site, OneOp-of_Perm}
use mpi_pv.Report.Concise.{
  no_rank_sums, CallsiteSummary, sort_by_cumulative, SortSummaries, concise_size_line,
  print_concise_callsite_sent_info, print_concise_callsite_io_info, print_concise_callsite_rma_info,
}
use mpi_pv.Report.Concise.Entries.{count_all, made, written, print_concise_callsite_sizes-written}
use mpi_pv.Report.Concise.Sites.{due, own-entries_of}
use mpi_pv.Report.Concise.Counts.{sum_by, RankOf, count_all-Counts, RankOf-most}

-- The entry of a call site with the records `ps`.
pub record IsSummary (f : CallsiteStats → ℕ) (operation c : ℕ) (ps : List CallsiteStats)
    (e : CallsiteSummary) : Type 0 where
  pub op : e.op ≡ operation
  pub site : e.site ≡ c
  pub counted : e.count ≡ length ps
  pub summed : e.cumulative ≡ sum_by f ps
  pub bounded : All (λ p. (e.least ≤ f p) × (f p ≤ e.greatest)) ps
  pub most : RankOf f ps e.max_rnk e.greatest
  pub fewest : ((e.min_rnk ≡ none) × (e.least ≡ dbl_max)) ⊎ RankOf f ps e.min_rnk e.least

-- One entry, if there is something to count, and else none.
abbrev pub OneSummary :
    (CallsiteStats → ℕ) → (op c : ℕ) → List CallsiteStats → List CallsiteSummary → Type 0
OneSummary f op c ps es =
    if ltb 0 (sum_by f ps)
    then ((e : CallsiteSummary) × (es ≡ e ∷ []) × IsSummary f op c ps e)
    else es ≡ []

due-OneSummary :
    (f : CallsiteStats → ℕ) (op c : ℕ) (ps : List CallsiteStats)
    → OneSummary f op c ps (due op c (count_all f ps no_rank_sums))
unfolding due
due-OneSummary f op c ps =
    let t = count_all-Counts f ps no_rank_sums in
    let sum : (count_all f ps no_rank_sums).cumulative ≡ sum_by f ps = omega (arith, t.summed) in
    rw sum (elim (Bool-cases (ltb 0 (sum_by f ps))) [
      | inl k ↦ rw k (
        _,
        refl,
        record {
          op = refl;
          site = refl;
          counted = omega (arith, t.counted);
          summed = refl;
          bounded = t.bounded;
          most = RankOf-most f ps k;
          fewest = t.fewest;
        },
      )
      | inr k ↦ rw k refl
    ])

sort_by_cumulative-IsOrder : IsOrder sort_by_cumulative
unfolding sort_by_cumulative
sort_by_cumulative-IsOrder = descending-IsOrder (λ (e : CallsiteSummary). e.cumulative)

-- What a section writes, nothing without `gate`.
abbrev pub WritesSummaries :
    Bool → Section → (CallsiteStats → ℕ) → (ℕ → ℕ) → List CallsiteStats → Run (List Line) → Type 0
WritesSummaries gate section f op_of all printed =
    (av : List CallsiteStats) × (es : List CallsiteSummary) × (sorted : List CallsiteSummary) × Perm
      av all
    × ((c : ℕ) → OneSummary f (op_of c) c (site c av) (keep (λ e. e.site == c) es))
    × Perm sorted es
    × Sorted sort_by_cumulative sorted
    × (printed ≡ (
        if gate
        then ok (
            if ltb 1 (length es)
            then heading section (some (length es)) ∷ map concise_size_line sorted
            else [])
        else ok []))

module _ {qsort : Sort} (q : IsQsort qsort) {qsort_summaries : SortSummaries}
    (qs : IsQsort qsort_summaries) {Good : CallsiteStats → Type 0} (r : Report)
    (valid : IsValid Good r.global_callsite_stats) (op_of : ℕ → ℕ)
    (one : (p : CallsiteStats)
      → Mem p (entries r.global_callsite_stats)
      → p.op ≡ op_of p.csid) where
  -- The entries that a section makes.
  abbrev pub made_by : (CallsiteStats → ℕ) → List CallsiteSummary
  made_by f = made qsort qsort_summaries r valid f

  made_by-WritesSummaries :
      (gate : Bool) (section : Section) (f : CallsiteStats → ℕ) (printed : Run (List Line))
      → (printed ≡ (
          if gate then ok (written qsort qsort_summaries r valid section (made_by f)) else ok []))
      → WritesSummaries gate section f op_of (entries r.global_callsite_stats) printed
  made_by-WritesSummaries gate section f printed e =
      let all = entries r.global_callsite_stats in
      let av = qsort sort_by_name_id_rank all in
      let p = q.permutes sort_by_name_id_rank all in
      let o = OneOp-of_Perm op_of all av one p in
      let s = q.sorts sort_by_name_id_rank all sort_by_name_id_rank-IsOrder in
      let es = made_by f in
      (
        av,
        es,
        qsort_summaries sort_by_cumulative es,
        p,
        λ c.
            subst (OneSummary f (op_of c) c (site c av)) (sym (own-entries_of f op_of c av o s))
              (due-OneSummary f (op_of c) c (site c av)),
        qs.permutes sort_by_cumulative es,
        qs.sorts sort_by_cumulative es sort_by_cumulative-IsOrder,
        e,
      )

  -- If `qsort` sorts, the table is valid, the records of one id are of one operation, and the array has
  -- room for an entry of each call site with something to count: each of the sections on data sent, on
  -- input and output and on remote memory access makes one entry for every such call site and none for
  -- others, with the number of the site's records, their sum, bounds of their values, a rank with the
  -- most, and a rank with the least unless none is below DBL_MAX. The entries are written by descending
  -- sum; but none if there is only one, and none of the latter two sections if its total is 0.
  pub print_concise_callsite_sizes-WritesSummaries :
      length (made_by (λ p. p.cumulative_data_sent)) ≤ r.src_id_cache.count
      → length (made_by (λ p. p.cumulative_io)) ≤ r.src_id_cache.count
      → length (made_by (λ p. p.cumulative_rma)) ≤ r.src_id_cache.count
      → WritesSummaries true callsite_sent_section
          (λ p. p.cumulative_data_sent)
          op_of
          (entries r.global_callsite_stats)
          (print_concise_callsite_sent_info qsort qsort_summaries true r)
        × WritesSummaries
            (ltb 0 r.totals.global_mpi_io)
            callsite_io_section
            (λ p. p.cumulative_io)
            op_of
            (entries r.global_callsite_stats)
            (print_concise_callsite_io_info qsort qsort_summaries true r)
        × WritesSummaries
            (ltb 0 r.totals.global_mpi_rma)
            callsite_rma_section
            (λ p. p.cumulative_rma)
            op_of
            (entries r.global_callsite_stats)
            (print_concise_callsite_rma_info qsort qsort_summaries true r)
  print_concise_callsite_sizes-WritesSummaries hs hi hr =
      let (s, i, m) = print_concise_callsite_sizes-written qsort qsort_summaries r valid hs hi hr in
      (
        made_by-WritesSummaries true callsite_sent_section _ _ s,
        made_by-WritesSummaries (ltb 0 r.totals.global_mpi_io) callsite_io_section _ _ i,
        made_by-WritesSummaries (ltb 0 r.totals.global_mpi_rma) callsite_rma_section _ _ m,
      )
