-- ===== src/Report/Concise.antt =====
-- report.c: the sections of the concise report, which sum up each call site over the ranks into an
-- array of `callsite_src_id_cache->count` entries. A rank that is not set is `none`: -1, or in the
-- section on time a variable without a value, or the one of the call site before.
pub mod Entries
pub mod Counts
pub mod Sites
pub mod Summaries
use mpi_pv.Prelude.{
  ℕ, ◌+◌, ◌*◌, Ordering, Bool, true, false, Option, none, some, List, [], ◌∷◌, ◌++◌, map, length,
  ltb, leb, ◌==◌, ◌||◌, ◌&&◌, not, if◌then◌else◌,
}
use mpi_pv.Hash.{Run, ok, abort, ◌>>=◌, overrun, underrun, gather}
use mpi_pv.Callsite.{CallsiteStats, express, dbl_max}
use mpi_pv.Report.{
  Cell, text, num, quot, unset, Format, callsite_time_concise_fmt, callsite_mess_concise_fmt,
  Section, callsite_time_section, callsite_sent_section, callsite_io_section, callsite_rma_section,
  Line, heading, row, Report, short_name, sort_by_name_id_rank,
}
use mpi_pv.Report.Top.{Sort}

-- sCount, sMin, sMax, sCumulative, max_rnk and min_rnk
pub record RankSums : Type 0 where
  pub count : ℕ
  pub least : ℕ
  pub greatest : ℕ
  pub cumulative : ℕ
  pub max_rnk : Option ℕ
  pub min_rnk : Option ℕ

abbrev pub no_rank_sums : RankSums
no_rank_sums = record {
  count = 0;
  least = dbl_max;
  greatest = 0;
  cumulative = 0;
  max_rnk = none;
  min_rnk = none;
}

-- `mpiPi_callsite_summary_t`, with the operation in place of its name
pub record CallsiteSummary : Type 0 where
  pub op : ℕ
  pub site : ℕ
  pub count : ℕ
  pub greatest : ℕ
  pub least : ℕ
  pub cumulative : ℕ
  pub max_rnk : Option ℕ
  pub min_rnk : Option ℕ

unfoldable pub sort_by_cumulative : CallsiteSummary → CallsiteSummary → Ordering
sort_by_cumulative cs1 cs2 = express cs2.cumulative cs1.cumulative Ordering.eq

unfoldable pub summary_of : CallsiteStats → RankSums → CallsiteSummary
summary_of prev s = record {
  op = prev.op;
  site = prev.csid;
  count = s.count;
  greatest = s.greatest;
  least = s.least;
  cumulative = s.cumulative;
  max_rnk = s.max_rnk;
  min_rnk = s.min_rnk;
}

unfoldable pub count_rank : (CallsiteStats → ℕ) → CallsiteStats → RankSums → RankSums
count_rank f p s = record {
  count = s.count + 1;
  cumulative = s.cumulative + f p;
  greatest = if ltb s.greatest (f p) then f p else s.greatest;
  max_rnk = if ltb s.greatest (f p) then some p.rank else s.max_rnk;
  least = if ltb (f p) s.least then f p else s.least;
  min_rnk = if ltb (f p) s.least then some p.rank else s.min_rnk;
}

-- The section on time stores every call site and keeps the ranks; the others store a call site only
-- if something is accumulated for it, and forget the ranks.
unfoldable pub is_stored : Bool → RankSums → Bool
is_stored always s = always || ltb 0 s.cumulative

unfoldable pub cleared : Bool → RankSums → RankSums
cleared always s =
    if always
    then record no_rank_sums { max_rnk = s.max_rnk; min_rnk = s.min_rnk }
    else no_rank_sums

-- The loop over the sorted records with what the first `csidx` entries hold; `none` for the `return`
-- on an index that is out of bounds. The store after the loop is not checked.
unfoldable pub concise_loop :
    Bool
    → (CallsiteStats → ℕ)
    → ℕ
    → List CallsiteSummary
    → CallsiteStats
    → RankSums
    → List CallsiteStats
    → Run (Option (List CallsiteSummary))
concise_loop always f cap out prev s [] =
    if is_stored always s
    then (if ltb (length out) cap then ok (some (out ++ summary_of prev s ∷ [])) else abort overrun)
    else ok (some out)
concise_loop always f cap out prev s (p ∷ av) =
    let next = not (p.csid == prev.csid) in
    let stores = next && is_stored always s in
    let rest =
      concise_loop always f cap (if stores then out ++ summary_of prev s ∷ [] else out) p
        (count_rank f p (if next then cleared always s else s)) av in
    if stores && leb cap (length out) then ok none else rest

-- For the section on time the store after the loop reads `av[ac - 1]`.
unfoldable pub concise_entries :
    Bool → (CallsiteStats → ℕ) → ℕ → List CallsiteStats → Run (Option (List CallsiteSummary))
concise_entries always f cap [] = if always then abort underrun else ok (some [])
concise_entries always f cap (p ∷ av) = concise_loop always f cap [] p no_rank_sums (p ∷ av)

abbrev rank_cell : Option ℕ → Cell
rank_cell none = unset
rank_cell (some r) = num r

unfoldable pub concise_time_line : CallsiteSummary → Line
concise_time_line e = row callsite_time_concise_fmt (
    text (short_name e.op)
    ∷ num e.site
    ∷ num e.count
    ∷ quot e.greatest 1000
    ∷ quot e.cumulative (e.count * 1000)
    ∷ quot e.least 1000
    ∷ rank_cell e.max_rnk
    ∷ rank_cell e.min_rnk
    ∷ [])

unfoldable pub concise_size_line : CallsiteSummary → Line
concise_size_line e = row callsite_mess_concise_fmt (
    text (short_name e.op)
    ∷ num e.site
    ∷ num e.count
    ∷ num e.greatest
    ∷ quot e.cumulative e.count
    ∷ num e.least
    ∷ rank_cell e.max_rnk
    ∷ rank_cell e.min_rnk
    ∷ [])

abbrev pub SortSummaries : Type 0
SortSummaries =
    (CallsiteSummary → CallsiteSummary → Ordering) → List CallsiteSummary → List CallsiteSummary

module _ (qsort : Sort) (qsort_summaries : SortSummaries) where
  -- From `csidx` on. The section on time is written in any case, the others `if (csidx > 0)`.
  unfoldable pub time_entries : Option (List CallsiteSummary) → List Line
  time_entries none = []
  time_entries (some es) =
      heading callsite_time_section (some (length es))
      ∷ map concise_time_line (qsort_summaries sort_by_cumulative es)

  unfoldable pub size_entries : Section → Option (List CallsiteSummary) → List Line
  size_entries section none = []
  size_entries section (some es) =
      if ltb 1 (length es)
      then heading section (some (length es))
        ∷ map concise_size_line (qsort_summaries sort_by_cumulative es)
      else []

  unfoldable pub print_concise_callsite_time_info : Bool → Report → Run (List Line)
  print_concise_callsite_time_info allocated r = do
    (ac, av) ← gather r.global_callsite_stats
    es ←
        if allocated
        then concise_entries true (λ p. p.cumulative_time) r.src_id_cache.count
            (qsort sort_by_name_id_rank av)
        else ok none
    ok (time_entries es)

  unfoldable pub print_concise_callsite_sent_info : Bool → Report → Run (List Line)
  print_concise_callsite_sent_info allocated r = do
    (ac, av) ← gather r.global_callsite_stats
    es ←
        if allocated
        then concise_entries false (λ p. p.cumulative_data_sent) r.src_id_cache.count
            (qsort sort_by_name_id_rank av)
        else ok none
    ok (size_entries callsite_sent_section es)

  unfoldable pub print_concise_callsite_io_info : Bool → Report → Run (List Line)
  print_concise_callsite_io_info allocated r =
      if ltb 0 r.totals.global_mpi_io
      then (do
        (ac, av) ← gather r.global_callsite_stats
        es ←
            if allocated
            then concise_entries false (λ p. p.cumulative_io) r.src_id_cache.count
                (qsort sort_by_name_id_rank av)
            else ok none
        ok (size_entries callsite_io_section es))
      else ok []

  unfoldable pub print_concise_callsite_rma_info : Bool → Report → Run (List Line)
  print_concise_callsite_rma_info allocated r =
      if ltb 0 r.totals.global_mpi_rma
      then (do
        (ac, av) ← gather r.global_callsite_stats
        es ←
            if allocated
            then concise_entries false (λ p. p.cumulative_rma) r.src_id_cache.count
                (qsort sort_by_name_id_rank av)
            else ok none
        ok (size_entries callsite_rma_section es))
      else ok []
