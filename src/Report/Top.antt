-- ===== src/Report/Top.antt =====
-- report.c: the sections with the twenty greatest call sites.
use mpi_pv.Prelude.{ℕ, zero, suc, ◌*◌, Ordering, none, List, [], ◌∷◌, ◌++◌, ltb, if◌then◌else◌}
use mpi_pv.Prelude.Int.{ℤ, pos, negsuc}
use mpi_pv.Hash.{Run, ok, ◌>>=◌, HashTable, gather}
use mpi_pv.Callsite.{CallsiteStats}
use mpi_pv.State.{Totals}
use mpi_pv.Report.{
  text, num, quot, Format, aggregate_time_fmt, aggregate_cov_time_fmt, aggregate_mess_fmt,
  aggregate_io_fmt, threshold_fmt, Section, aggregate_time_section, aggregate_sent_section,
  aggregate_io_section, aggregate_rma_section, Line, heading, row, Report, short_name,
  sort_by_cumulative_time, sort_by_cumulative_size, sort_by_cumulative_io, sort_by_cumulative_rma,
  calc_cov, percentage,
}

-- What is sorted by, the table to gather from, and the loop
-- `for (i = 0; (i < 20) && (i < ac); i++) if (av[i]->f > 0) ..`
abbrev pub summarized : Report → HashTable CallsiteStats
summarized r =
    if ltb 0 r.settings.stack_depth then r.global_callsite_stats_agg else r.global_mpi_stats_agg

unfoldable pub top_rows :
    ℕ → (CallsiteStats → ℕ) → (CallsiteStats → Line) → List CallsiteStats → List Line
top_rows zero f line av = []
top_rows (suc left) f line [] = []
top_rows (suc left) f line (p ∷ av) =
    let rest = top_rows left f line av in if ltb 0 (f p) then line p ∷ rest else rest

-- The rows. With the coefficient of variation the percentage of `global_app_time` is computed even
-- if this is 0.
unfoldable pub time_line : Report → CallsiteStats → Line
time_line r p =
    if r.settings.calc_cov
    then row aggregate_cov_time_fmt (
        text (short_name p.op)
        ∷ num p.csid
        ∷ quot p.cumulative_time 1000
        ∷ quot (100 * p.cumulative_time) r.totals.global_app_time
        ∷ percentage p.cumulative_time r.totals.global_mpi_time
        ∷ calc_cov p.site_data p.site_data_idx
        ∷ [])
    else row aggregate_time_fmt (
        text (short_name p.op)
        ∷ num p.csid
        ∷ quot p.cumulative_time 1000
        ∷ percentage p.cumulative_time r.totals.global_app_time
        ∷ percentage p.cumulative_time r.totals.global_mpi_time
        ∷ [])

unfoldable pub size_line : Format → (CallsiteStats → ℕ) → ℕ → CallsiteStats → Line
size_line format f total p = row format (
    text (short_name p.op)
    ∷ num p.csid
    ∷ num p.count
    ∷ num (f p)
    ∷ quot (f p) p.count
    ∷ quot (f p * 100) total
    ∷ [])

-- `if (mpiPi.messageCountThreshold >= 0) ..`
unfoldable pub threshold_lines : ℤ → Totals → List Line
threshold_lines (negsuc n) t = []
threshold_lines (pos n) t =
    row threshold_fmt
      (num n ∷ num t.global_mpi_msize_threshold_count ∷ num t.global_mpi_sent_count ∷ [])
    ∷ []

-- `qsort`, for one type of entries
abbrev pub SortOf : Type 0 → Type 0
SortOf A = (A → A → Ordering) → List A → List A

abbrev pub Sort : Type 0
Sort = SortOf CallsiteStats

abbrev pub with_heading : Section → List Line → List Line
with_heading section lines = heading section none ∷ lines

module _ (qsort : Sort) where
  unfoldable pub print_top_time_sites : Report → Run (List Line)
  print_top_time_sites r = do
    (ac, av) ← gather (summarized r)
    ok (
        with_heading aggregate_time_section
          (top_rows 20 (λ p. p.cumulative_time) (time_line r) (qsort sort_by_cumulative_time av)))

  unfoldable pub print_top_sent_sites : Report → Run (List Line)
  print_top_sent_sites r =
      if ltb 0 r.totals.global_mpi_size
      then (do
        (ac, av) ← gather (summarized r)
        ok (
            with_heading aggregate_sent_section (
              top_rows 20 (λ p. p.cumulative_data_sent)
                (size_line aggregate_mess_fmt (λ p. p.cumulative_data_sent)
                  r.totals.global_mpi_size)
                (qsort sort_by_cumulative_size av)
              ++ threshold_lines r.settings.message_count_threshold r.totals)))
      else ok []

  unfoldable pub print_top_io_sites : Report → Run (List Line)
  print_top_io_sites r =
      if ltb 0 r.totals.global_mpi_io
      then (do
        (ac, av) ← gather (summarized r)
        ok (
            with_heading aggregate_io_section (
              top_rows 20 (λ p. p.cumulative_io)
                (size_line aggregate_io_fmt (λ p. p.cumulative_io) r.totals.global_mpi_io)
                (qsort sort_by_cumulative_io av))))
      else ok []

  unfoldable pub print_top_rma_sites : Report → Run (List Line)
  print_top_rma_sites r =
      if ltb 0 r.totals.global_mpi_rma
      then (do
        (ac, av) ← gather (summarized r)
        ok (
            with_heading aggregate_rma_section (
              top_rows 20 (λ p. p.cumulative_rma)
                (size_line aggregate_io_fmt (λ p. p.cumulative_rma) r.totals.global_mpi_rma)
                (qsort sort_by_cumulative_rma av))))
      else ok []
