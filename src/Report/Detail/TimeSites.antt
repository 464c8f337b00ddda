-- ===== src/Report/Detail/TimeSites.antt =====
-- report.c: what `mpiPi_print_all_callsite_time_info` writes for one call site.
use mpi_pv.Prelude.{
  ℕ, ◌≡◌, ◌≢◌, refl, sym, ap, ◌∙◌, inl, inr, Bool, false, ◌&&◌, not, some, List, [], ◌∷◌, ◌++◌, map,
  keep, ◌==◌, Bool-cases, ==_iff, if◌then◌else◌,
}
use mpi_pv.Callsite.{CallsiteStats}
use mpi_pv.Report.{
  Cell, num, Line, row, blank, heading, sort_by_name_id_rank, callsite_time_section,
  callsite_time_summary_fmt, callsite_time_rank_fmt, Report,
}
use mpi_pv.Report.Runs.{Ends, Grouped, OneOp, Grouped-of_Sorted}
use mpi_pv.Report.Detail.Site.{
  site, add_all, site_of_Ends, ne_test, test_ne, Ends-after, OneOp-of_Perm,
}
use mpi_pv.Report.Order.{IsQsort, Sorted, sort_by_name_id_rank-IsOrder}
use mpi_pv.Report.Top.{Sort}
use mpi_pv.Hash.{ok}
use mpi_pv.Hash.Invariant.{IsValid}
use mpi_pv.Hash.Gather.{entries, gather-entries}
use mathlib.Core.List.{Perm, Mem}
use mathlib.Core.List.Perm
use mpi_pv.Report.Detail.{
  print_all_callsite_time_info, Sums, no_sums, time_view, add_record, time_summary, time_rank,
  is_printed, time_loop, time_rows, time_rows,
}

-- Whether a line is the summary of a call site, or one of its ranks' lines.
abbrev has_id : ℕ → List Cell → Bool
has_id c (name ∷ num d ∷ cells) = d == c
has_id c cells = false

unfoldable pub is_summary : ℕ → Line → Bool
is_summary c (row callsite_time_summary_fmt cells) = has_id c cells
is_summary c l = false

unfoldable pub is_rank : ℕ → Line → Bool
is_rank c (row callsite_time_rank_fmt cells) = has_id c cells
is_rank c l = false

module _ (r : Report) (c : ℕ) where
  is_summary-time_summary : (op d : ℕ) (s : Sums) → is_summary c (time_summary r op d s) ≡ (d == c)
  unfolding is_summary time_summary
  is_summary-time_summary op d s = refl

  is_summary-time_rank : (p : CallsiteStats) → is_summary c (time_rank r p) ≡ false
  unfolding is_summary time_rank
  is_summary-time_rank p = refl

  is_summary-blank : is_summary c blank ≡ false
  unfolding is_summary
  is_summary-blank = refl

  -- One round of the loop, of whose lines the summaries of `c` are kept.
  round :
      (prev p : CallsiteStats) (s : Sums) (av : List CallsiteStats)
      → keep (is_summary c) (time_loop r prev s (p ∷ av))
        ≡ (if not (p.csid == prev.csid) && (prev.csid == c)
            then time_summary r prev.op prev.csid s ∷ []
            else [])
          ++ keep (is_summary c) (
              time_loop r p
                (add_record time_view p (if p.csid == prev.csid then s else no_sums))
                av)
  unfolding time_loop
  round prev p s av = elim (Bool-cases (p.csid == prev.csid)) [
    | inl e ↦ rw e (printed (time_loop r p (add_record time_view p s) av))
    | inr e ↦ rw e (
        rw (is_summary-time_summary prev.op prev.csid s, is_summary-blank)
          (rw (printed (time_loop r p (add_record time_view p no_sums) av))
            (elim (Bool-cases (prev.csid == c)) [ inl k ↦ rw k refl | inr k ↦ rw k refl ])))
  ]
    where
      printed :
          (l : List Line)
          → keep (is_summary c) ((if is_printed r p then time_rank r p ∷ [] else []) ++ l)
            ≡ keep (is_summary c) l
      printed l = elim (Bool-cases (is_printed r p)) [
        | inl e ↦ rw (e, is_summary-time_rank p) refl
        | inr e ↦ rw e refl
      ]

module _ (r : Report) (op_of : ℕ → ℕ) (c : ℕ) where
  pub summary : Sums → List Line
  summary s = time_summary r (op_of c) c s ∷ []

  -- The summaries of `c` from the loop on: one, with what there is already if the loop is in `c`.
  abbrev pub fresh : List CallsiteStats → List Line
  fresh [] = []
  fresh (p ∷ ps) = summary (add_all time_view (p ∷ ps) no_sums)

  last_round :
      (prev : CallsiteStats) (s : Sums)
      → keep (is_summary c) (time_loop r prev s [])
        ≡ (if prev.csid == c then time_summary r prev.op prev.csid s ∷ [] else [])
  unfolding time_loop
  last_round prev s = rw (is_summary-time_summary r c prev.op prev.csid s) refl

  own :
      (prev : CallsiteStats) (s : Sums)
      → prev.csid ≡ c
      → prev.op ≡ op_of prev.csid
      → time_summary r prev.op prev.csid s ∷ [] ≡ summary s
  unfolding summary
  own prev s e o = rw (o, e) refl

  -- Past its records a site has no summary.
  gone :
      (prev : CallsiteStats) (s : Sums) (av : List CallsiteStats)
      → prev.csid ≢ c
      → Ends c av
      → keep (is_summary c) (time_loop r prev s av) ≡ []
  gone prev s [] ne h = rw (last_round prev s, ne_test ne) refl
  gone prev s (p ∷ av) ne h =
      rw (round r c prev p s av, ne_test ne)
        (elim (Bool-cases (p.csid == prev.csid)) [
          | inl e ↦ rw e (gone p _ av h.0 h.1)
          | inr e ↦ rw e (gone p _ av h.0 h.1)
        ])

  inside :
      (prev : CallsiteStats) (s : Sums) (av : List CallsiteStats)
      → prev.csid ≡ c
      → OneOp op_of (prev ∷ av)
      → Grouped prev av
      → keep (is_summary c) (time_loop r prev s av) ≡ summary (add_all time_view (site c av) s)
  inside prev s [] e o g = rw (last_round prev s, (==_iff _ _).1 e) (own prev s e o.0)
  inside prev s (p ∷ av) e o g =
      rw (round r c prev p s av, (==_iff _ _).1 e)
        (elim (Bool-cases (p.csid == c)) [
          | inl k ↦
              let pc = (==_iff _ _).0 k in
              rw ((==_iff p.csid prev.csid).1 (pc ∙ sym e), k)
                (inside p (add_record time_view p s) av pc o.1 g.1)
          | inr k ↦
              let pc = test_ne k in
              let ends = Ends-after c prev p av e pc g.0 in
              rw
                (
                  ne_test (λ h. pc (h ∙ e)),
                  k,
                  gone p (add_record time_view p no_sums) av pc ends.1,
                  site_of_Ends c av ends.1,
                )
                (own prev s e o.0)
        ])

  outside :
      (prev : CallsiteStats) (s : Sums) (av : List CallsiteStats)
      → prev.csid ≢ c
      → OneOp op_of (prev ∷ av)
      → Grouped prev av
      → keep (is_summary c) (time_loop r prev s av) ≡ fresh (site c av)
  outside prev s [] ne o g = rw (last_round prev s, ne_test ne) refl
  outside prev s (p ∷ av) ne o g =
      rw (round r c prev p s av, ne_test ne)
        (elim (Bool-cases (p.csid == c)) [
          | inl k ↦
              let pc = (==_iff _ _).0 k in
              rw (ne_test (λ h. ne (sym h ∙ pc)), k)
                (inside p (add_record time_view p no_sums) av pc o.1 g.1)
          | inr k ↦ rw k (elim (Bool-cases (p.csid == prev.csid)) [
            | inl h ↦ rw h (outside p _ av (test_ne k) o.1 g.1)
            | inr h ↦ rw h (outside p _ av (test_ne k) o.1 g.1)
          ])
        ])

-- The lines of the ranks: those of the site's records that reach the threshold, in their order.
module _ (r : Report) (c : ℕ) where
  is_rank-time_summary : (op d : ℕ) (s : Sums) → is_rank c (time_summary r op d s) ≡ false
  unfolding is_rank time_summary
  is_rank-time_summary op d s = refl

  is_rank-time_rank : (p : CallsiteStats) → is_rank c (time_rank r p) ≡ (p.csid == c)
  unfolding is_rank time_rank
  is_rank-time_rank p = refl

  is_rank-blank : is_rank c blank ≡ false
  unfolding is_rank
  is_rank-blank = refl

  pub ranks :
      (prev : CallsiteStats) (s : Sums) (av : List CallsiteStats)
      → keep (is_rank c) (time_loop r prev s av)
        ≡ map (time_rank r) (keep (is_printed r) (site c av))
  unfolding time_loop
  ranks prev s [] = rw (is_rank-time_summary prev.op prev.csid s) refl
  ranks prev s (p ∷ av) = elim (Bool-cases (p.csid == prev.csid)) [
    | inl e ↦ rw e (
        printed (time_loop r p (add_record time_view p s) av)
          (ranks p (add_record time_view p s) av))
    | inr e ↦ rw e (
        rw (is_rank-time_summary prev.op prev.csid s, is_rank-blank)
          (printed (time_loop r p (add_record time_view p no_sums) av)
            (ranks p (add_record time_view p no_sums) av)))
  ]
    where
      printed :
          (l : List Line)
          → keep (is_rank c) l ≡ map (time_rank r) (keep (is_printed r) (site c av))
          → keep (is_rank c) ((if is_printed r p then time_rank r p ∷ [] else []) ++ l)
            ≡ map (time_rank r) (keep (is_printed r) (site c (p ∷ av)))
      printed l h = elim (Bool-cases (is_printed r p)) [
        | inl e ↦
            rw (e, is_rank-time_rank p)
              (elim (Bool-cases (p.csid == c)) [
                | inl k ↦ rw (k) (rw e (ap (λ l. time_rank r p ∷ l) h))
                | inr k ↦ rw (k) h
              ])
        | inr e ↦
            rw e (elim (Bool-cases (p.csid == c)) [ inl k ↦ rw (k) (rw e h) | inr k ↦ rw (k) h ])
      ]

-- From the first record on.
module _ (r : Report) (op_of : ℕ → ℕ) where
  whole :
      (c : ℕ) (p : CallsiteStats) (av : List CallsiteStats)
      → OneOp op_of (p ∷ av)
      → Grouped p av
      → keep (is_summary c) (time_loop r p no_sums (p ∷ av)) ≡ fresh r op_of c (site c (p ∷ av))
  whole c p av o g = elim (Bool-cases (p.csid == c)) [
    | inl e ↦
        inside r op_of c p no_sums (p ∷ av) ((==_iff _ _).0 e) (o.0, o) (inl refl, g) ∙ rw e refl
    | inr e ↦ outside r op_of c p no_sums (p ∷ av) (test_ne e) (o.0, o) (inl refl, g)
  ]

  rows :
      (all av : List CallsiteStats)
      → all ≢ []
      → Perm av all
      → OneOp op_of av
      → Sorted sort_by_name_id_rank av
      → (lines : List Line) × (time_rows r av ≡ ok lines)
        × ((c : ℕ) → keep (is_summary c) lines ≡ fresh r op_of c (site c av))
        × ((c : ℕ) → keep (is_rank c) lines ≡ map (time_rank r) (keep (is_printed r) (site c av)))
  unfolding time_rows
  rows all [] any p o s = absurd (any (sym (Perm.nil-eq p)))
  rows all (x ∷ av) any p o s = (
    time_loop r x no_sums (x ∷ av),
    refl,
    λ c. whole c x av o (Grouped-of_Sorted op_of x av o s),
    λ c. ranks r c x no_sums (x ∷ av),
  )

module _ {qsort : Sort} (q : IsQsort qsort) {Good : CallsiteStats → Type 0} (r : Report)
    (v : IsValid Good r.global_callsite_stats) (op_of : ℕ → ℕ) where
  -- If `qsort` sorts, the table is valid and has a record, and the records of one id are of one
  -- operation: for every call site with a record there is one summary, with the operation and the sums
  -- and extremes of all of its records, and for a site without one there is none; of the ranks' lines
  -- there is one for each record of the site that reaches the threshold.
  pub print_all_callsite_time_info-sites :
      ((p : CallsiteStats) → Mem p (entries r.global_callsite_stats) → p.op ≡ op_of p.csid)
      → entries r.global_callsite_stats ≢ []
      → (av : List CallsiteStats) × (lines : List Line) × Perm av (entries r.global_callsite_stats)
        × (print_all_callsite_time_info qsort r
            ≡ ok (heading callsite_time_section (some r.global_callsite_stats.count) ∷ lines))
        × ((c : ℕ) → keep (is_summary c) lines ≡ fresh r op_of c (site c av))
        × ((c : ℕ) → keep (is_rank c) lines ≡ map (time_rank r) (keep (is_printed r) (site c av)))
  unfolding print_all_callsite_time_info
  print_all_callsite_time_info-sites one any =
      let all = entries r.global_callsite_stats in
      let av = qsort sort_by_name_id_rank all in
      let p = q.permutes sort_by_name_id_rank all in
      let (lines, printed, sums, ranked) =
        rows r op_of all av any p (OneOp-of_Perm op_of all av one p)
          (q.sorts sort_by_name_id_rank all sort_by_name_id_rank-IsOrder) in
      (av, lines, p, rw ((gather-entries r.global_callsite_stats v).0, printed) refl, sums, ranked)
