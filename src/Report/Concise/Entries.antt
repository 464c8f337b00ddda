-- ===== src/Report/Concise/Entries.antt =====
-- report.c: what the array of a concise section holds after the loop.
use mathlib.Core.Path.{subst}
use mathlib.Core.List.{append_assoc, append-nil}
use mpi_pv.Prelude.{
  ℕ, ◌+◌, ◌≤◌, ◌≡◌, refl, sym, ap, ◌∙◌, inl, inr, true, false, some, List, [], ◌∷◌, ◌++◌, map,
  arith, length, length-append, ltb, leb, ◌==◌, ==_iff, Bool-cases, if◌then◌else◌,
}
use mpi_pv.Hash.{ok}
use mpi_pv.Hash.Invariant.{IsValid}
use mpi_pv.Hash.Gather.{entries, gather-entries}
use mpi_pv.Callsite.{CallsiteStats}
use mpi_pv.Report.{
  Section, callsite_sent_section, callsite_io_section, callsite_rma_section, Line, heading, Report,
  sort_by_name_id_rank,
}
use mpi_pv.Report.Top.{Sort}
use mpi_pv.Report.Concise.{
  RankSums, no_rank_sums, CallsiteSummary, sort_by_cumulative, summary_of, count_rank, is_stored,
  cleared, concise_loop, concise_entries, concise_size_line, SortSummaries, size_entries,
  print_concise_callsite_sent_info, print_concise_callsite_io_info, print_concise_callsite_rma_info,
}

-- The records that follow `x` at its call site, and the groups of records after them: each group is
-- its first record and the others.
unfoldable pub after :
    CallsiteStats
    → List CallsiteStats
    → List CallsiteStats × List (CallsiteStats × List CallsiteStats)
after x [] = ([], [])
after x (p ∷ av) =
    let (g, gs) = after p av in if p.csid == x.csid then (p ∷ g, gs) else ([], (p, g) ∷ gs)

unfoldable pub groups : List CallsiteStats → List (CallsiteStats × List CallsiteStats)
groups [] = []
groups (p ∷ av) = let (g, gs) = after p av in (p, g) ∷ gs

abbrev pub last_of : CallsiteStats → List CallsiteStats → CallsiteStats
last_of x [] = x
last_of x (p ∷ g) = last_of p g

-- The entry of one group, if anything is accumulated in it.
module _ (f : CallsiteStats → ℕ) where
  abbrev pub count_all : List CallsiteStats → RankSums → RankSums
  count_all [] s = s
  count_all (p ∷ g) s = count_all g (count_rank f p s)

  unfoldable pub entry : CallsiteStats → RankSums → List CallsiteSummary
  entry x s = if ltb 0 s.cumulative then summary_of x s ∷ [] else []

  unfoldable pub entries_of : List (CallsiteStats × List CallsiteStats) → List CallsiteSummary
  entries_of [] = []
  entries_of ((p, g) ∷ gs) = entry (last_of p g) (count_all (p ∷ g) no_rank_sums) ++ entries_of gs

  -- The entries that the loop makes from here on.
  unfoldable pub coming : CallsiteStats → RankSums → List CallsiteStats → List CallsiteSummary
  coming prev s av =
      let (g, gs) = after prev av in entry (last_of prev g) (count_all g s) ++ entries_of gs

  pub coming-same :
      (prev p : CallsiteStats) (s : RankSums) (av : List CallsiteStats)
      → (p.csid == prev.csid) ≡ true
      → coming prev s (p ∷ av) ≡ coming p (count_rank f p s) av
  unfolding coming after
  coming-same prev p s av e = rw e refl

  pub coming-next :
      (prev p : CallsiteStats) (s : RankSums) (av : List CallsiteStats)
      → (p.csid == prev.csid) ≡ false
      → coming prev s (p ∷ av) ≡ entry prev s ++ coming p (count_rank f p no_rank_sums) av
  unfolding coming after entries_of
  coming-next prev p s av e = rw e refl

  pub coming-nil : (prev : CallsiteStats) (s : RankSums) → coming prev s [] ≡ entry prev s
  unfolding coming after entries_of
  coming-nil prev s = append-nil (entry prev s)

  -- With room for one more entry the check of the index passes.
  not_full :
      (cap : ℕ) (out rest : List CallsiteSummary) (e : CallsiteSummary)
      → length (out ++ (e ∷ rest)) ≤ cap
      → (ltb (length out) cap ≡ true) × (leb cap (length out) ≡ false)
  not_full cap out rest e h =
      let more : length out + length (e ∷ rest) ≤ cap =
        omega (arith, length-append out (e ∷ rest)) in
      (ground arith, ground arith)

  loop-coming :
      (cap : ℕ) (out : List CallsiteSummary) (prev : CallsiteStats) (s : RankSums)
      (av : List CallsiteStats)
      → length (out ++ coming prev s av) ≤ cap
      → concise_loop false f cap out prev s av ≡ ok (some (out ++ coming prev s av))
  unfolding concise_loop is_stored cleared entry
  loop-coming cap out prev s [] h =
      rw (coming-nil prev s) (ending (subst (λ l. length (out ++ l) ≤ cap) (coming-nil prev s) h))
    where
      ending :
          length (out ++ entry prev s) ≤ cap
          → concise_loop false f cap out prev s [] ≡ ok (some (out ++ entry prev s))
      ending h = elim (Bool-cases (ltb 0 s.cumulative)) [
        | inl k ↦ rw k (
            rw
              (not_full cap out [] (summary_of prev s) (
                subst (λ b. length (out ++ (if b then summary_of prev s ∷ [] else [])) ≤ cap) k
                  h)).0
              refl)
        | inr k ↦ rw k (ap (λ l. ok (some l)) (sym (append-nil out)))
      ]
  loop-coming cap out prev s (p ∷ av) h = elim (Bool-cases (p.csid == prev.csid)) [
    | inl e ↦
        let e' = coming-same prev p s av e in
        rw (e, e')
          (loop-coming cap out p (count_rank f p s) av (subst (λ l. length (out ++ l) ≤ cap) e' h))
    | inr e ↦
        let e' = coming-next prev p s av e in
        let rest = coming p (count_rank f p no_rank_sums) av in
        let h' : length (out ++ (entry prev s ++ rest)) ≤ cap =
          subst (λ l. length (out ++ l) ≤ cap) e' h in
        rw (e, e')
          (elim (Bool-cases (ltb 0 s.cumulative)) [
            | inl k ↦
                let h'' =
                  subst
                    (λ b.
                      length (out ++ ((if b then summary_of prev s ∷ [] else []) ++ rest)) ≤ cap)
                    k h' in
                let joined = append_assoc out (summary_of prev s ∷ []) rest in
                rw (k, (not_full cap out rest (summary_of prev s) h'').1)
                  (loop-coming cap (out ++ summary_of prev s ∷ []) p (count_rank f p no_rank_sums)
                      av (subst (λ l. length l ≤ cap) (sym joined) h'')
                    ∙ ap (λ l. ok (some l)) joined)
            | inr k ↦ rw k (
                loop-coming cap out p (count_rank f p no_rank_sums) av (
                  subst
                    (λ b.
                      length (out ++ ((if b then summary_of prev s ∷ [] else []) ++ rest)) ≤ cap)
                    k h'))
          ])
  ]

  pub coming-groups :
      (p : CallsiteStats) (av : List CallsiteStats)
      → coming p no_rank_sums (p ∷ av) ≡ entries_of (groups (p ∷ av))
  coming-groups p av = coming-same p p no_rank_sums av ((==_iff _ _).1 refl) ∙ whole
    where
      whole : coming p (count_rank f p no_rank_sums) av ≡ entries_of (groups (p ∷ av))
      whole = unfold coming in (unfold entries_of in (unfold groups in refl))

  concise_entries-entries_of :
      (cap : ℕ) (av : List CallsiteStats)
      → length (entries_of (groups av)) ≤ cap
      → concise_entries false f cap av ≡ ok (some (entries_of (groups av)))
  unfolding concise_entries groups
  concise_entries-entries_of cap [] h = unfold entries_of in refl
  concise_entries-entries_of cap (p ∷ av) h =
      let e = coming-groups p av in
      loop-coming cap [] p no_rank_sums (p ∷ av) (subst (λ l. length l ≤ cap) (sym e) h)
      ∙ ap (λ l. ok (some l)) e

module _ (qsort : Sort) (qsort_summaries : SortSummaries) {Good : CallsiteStats → Type 0}
    (r : Report) (valid : IsValid Good r.global_callsite_stats) where
  -- The records as they are sorted, and the entries of a section.
  abbrev pub sorted : List CallsiteStats
  sorted = qsort sort_by_name_id_rank (entries r.global_callsite_stats)

  abbrev pub made : (CallsiteStats → ℕ) → List CallsiteSummary
  made f = entries_of f (groups sorted)

  abbrev pub written : Section → List CallsiteSummary → List Line
  written section es =
      if ltb 1 (length es)
      then heading section (some (length es))
        ∷ map concise_size_line (qsort_summaries sort_by_cumulative es)
      else []

  -- If the table is valid and the array has room, each of the sections on data sent, on input and output
  -- and on remote memory access writes the entries that are made of the runs of neighbouring records of
  -- one id, or nothing for fewer than two of them.
  pub print_concise_callsite_sizes-written :
      length (made (λ p. p.cumulative_data_sent)) ≤ r.src_id_cache.count
      → length (made (λ p. p.cumulative_io)) ≤ r.src_id_cache.count
      → length (made (λ p. p.cumulative_rma)) ≤ r.src_id_cache.count
      → (print_concise_callsite_sent_info qsort qsort_summaries true r
          ≡ ok (written callsite_sent_section (made (λ p. p.cumulative_data_sent))))
        × (print_concise_callsite_io_info qsort qsort_summaries true r ≡ (
            if ltb 0 r.totals.global_mpi_io
            then ok (written callsite_io_section (made (λ p. p.cumulative_io)))
            else ok []))
        × (print_concise_callsite_rma_info qsort qsort_summaries true r ≡ (
            if ltb 0 r.totals.global_mpi_rma
            then ok (written callsite_rma_section (made (λ p. p.cumulative_rma)))
            else ok []))
  unfolding print_concise_callsite_sent_info print_concise_callsite_io_info
      print_concise_callsite_rma_info size_entries
  print_concise_callsite_sizes-written hs hi hr =
      let g = (gather-entries r.global_callsite_stats valid).0 in
      (
        rw (g, concise_entries-entries_of _ _ sorted hs) refl,
        rw (g, concise_entries-entries_of _ _ sorted hi) refl,
        rw (g, concise_entries-entries_of _ _ sorted hr) refl,
      )
