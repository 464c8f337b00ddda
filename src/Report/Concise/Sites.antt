-- ===== src/Report/Concise/Sites.antt =====
-- report.c: the concise sections on data sent, input and output and remote memory access for one call site.
use mathlib.Core.List.{append-nil}
use mpi_pv.Prelude.{
  ℕ, ◌≡◌, ◌≢◌, refl, sym, ap, ◌∙◌, inl, inr, false, List, [], ◌∷◌, ◌++◌, keep, ltb, ◌==◌, ==_iff,
  Bool-cases, if◌then◌else◌,
}
use mpi_pv.Callsite.{CallsiteStats}
use mpi_pv.Report.{sort_by_name_id_rank}
use mpi_pv.Report.Order.{Sorted}
use mpi_pv.Report.Runs.{Ends, Grouped, OneOp, Grouped-of_Sorted}
use mpi_pv.Report.Detail.Site.{site, keep-append, site_of_Ends, ne_test, test_ne, Ends-after}
use mpi_pv.Report.Concise.{RankSums, no_rank_sums, CallsiteSummary, summary_of, count_rank}
use mpi_pv.Report.Concise.Entries.{
  count_all, entry, entries_of, groups, coming, coming-same, coming-next, coming-nil, coming-groups,
}

-- The entry of the site `c` with what the variables hold, if anything is accumulated.
unfoldable pub due : (op c : ℕ) → RankSums → List CallsiteSummary
due op c s =
    if ltb 0 s.cumulative
    then record {
      op = op;
      site = c;
      count = s.count;
      greatest = s.greatest;
      least = s.least;
      cumulative = s.cumulative;
      max_rnk = s.max_rnk;
      min_rnk = s.min_rnk;
    }
      ∷ []
    else []

module _ (f : CallsiteStats → ℕ) (op_of : ℕ → ℕ) (c : ℕ) where
  abbrev own : List CallsiteSummary → List CallsiteSummary
  own es = keep (λ e. e.site == c) es

  own-other : (prev : CallsiteStats) (s : RankSums) → prev.csid ≢ c → own (entry f prev s) ≡ []
  unfolding entry summary_of
  own-other prev s ne = elim (Bool-cases (ltb 0 s.cumulative)) [
    | inl k ↦ rw (k, ne_test ne) refl
    | inr k ↦ rw k refl
  ]

  own-entry :
      (prev : CallsiteStats) (s : RankSums)
      → prev.csid ≡ c
      → prev.op ≡ op_of prev.csid
      → own (entry f prev s) ≡ due (op_of c) c s
  unfolding entry summary_of due
  own-entry prev s e o = elim (Bool-cases (ltb 0 s.cumulative)) [
    | inl k ↦ rw (k, o, e, (==_iff c c).1 refl) refl
    | inr k ↦ rw k refl
  ]

  own-coming :
      (prev p : CallsiteStats) (s : RankSums) (av : List CallsiteStats)
      → (p.csid == prev.csid) ≡ false
      → own (coming f prev s (p ∷ av))
        ≡ own (entry f prev s) ++ own (coming f p (count_rank f p no_rank_sums) av)
  own-coming prev p s av e =
      ap own (coming-next f prev p s av e) ∙ keep-append (λ x. x.site == c) (entry f prev s) _

  -- Past its records a site has no entry.
  gone :
      (prev : CallsiteStats) (s : RankSums) (av : List CallsiteStats)
      → prev.csid ≢ c
      → Ends c av
      → own (coming f prev s av) ≡ []
  gone prev s [] ne h = rw (coming-nil f prev s) (own-other prev s ne)
  gone prev s (p ∷ av) ne h = elim (Bool-cases (p.csid == prev.csid)) [
    | inl e ↦ rw (coming-same f prev p s av e) (gone p (count_rank f p s) av h.0 h.1)
    | inr e ↦
        rw (own-coming prev p s av e, own-other prev s ne)
          (gone p (count_rank f p no_rank_sums) av h.0 h.1)
  ]

  inside :
      (prev : CallsiteStats) (s : RankSums) (av : List CallsiteStats)
      → prev.csid ≡ c
      → OneOp op_of (prev ∷ av)
      → Grouped prev av
      → own (coming f prev s av) ≡ due (op_of c) c (count_all f (site c av) s)
  inside prev s [] e o g = rw (coming-nil f prev s) (own-entry prev s e o.0)
  inside prev s (p ∷ av) e o g = elim (Bool-cases (p.csid == c)) [
    | inl k ↦
        let pc = (==_iff _ _).0 k in
        rw (coming-same f prev p s av ((==_iff _ _).1 (pc ∙ sym e)), k)
          (inside p (count_rank f p s) av pc o.1 g.1)
    | inr k ↦
        let pc = test_ne k in
        let ends = Ends-after c prev p av e pc g.0 in
        rw
          (
            own-coming prev p s av (ne_test (λ h. pc (h ∙ e))),
            gone p (count_rank f p no_rank_sums) av pc ends.1,
            own-entry prev s e o.0,
            k,
            site_of_Ends c av ends.1,
          )
          (append-nil _)
  ]

  outside :
      (prev : CallsiteStats) (s : RankSums) (av : List CallsiteStats)
      → prev.csid ≢ c
      → OneOp op_of (prev ∷ av)
      → Grouped prev av
      → own (coming f prev s av) ≡ due (op_of c) c (count_all f (site c av) no_rank_sums)
  outside prev s [] ne o g = rw (coming-nil f prev s) (own-other prev s ne ∙ (unfold due in refl))
  outside prev s (p ∷ av) ne o g = elim (Bool-cases (p.csid == c)) [
    | inl k ↦
        let pc = (==_iff _ _).0 k in
        rw (own-coming prev p s av (ne_test (λ h. ne (sym h ∙ pc))), own-other prev s ne, k)
          (inside p (count_rank f p no_rank_sums) av pc o.1 g.1)
    | inr k ↦ rw k (elim (Bool-cases (p.csid == prev.csid)) [
      | inl h ↦
          rw (coming-same f prev p s av h) (outside p (count_rank f p s) av (test_ne k) o.1 g.1)
      | inr h ↦
          rw (own-coming prev p s av h, own-other prev s ne)
            (outside p (count_rank f p no_rank_sums) av (test_ne k) o.1 g.1)
    ])
  ]

  pub own-entries_of :
      (av : List CallsiteStats)
      → OneOp op_of av
      → Sorted sort_by_name_id_rank av
      → own (entries_of f (groups av)) ≡ due (op_of c) c (count_all f (site c av) no_rank_sums)
  own-entries_of [] o s = unfold groups in (unfold entries_of in (unfold due in refl))
  own-entries_of (p ∷ av) o s =
      let g = Grouped-of_Sorted op_of p av o s in
      rw (sym (coming-groups f p av)) (elim (Bool-cases (p.csid == c)) [
        | inl k ↦ inside p no_rank_sums (p ∷ av) ((==_iff _ _).0 k) (o.0, o) (inl refl, g)
        | inr k ↦ outside p no_rank_sums (p ∷ av) (test_ne k) (o.0, o) (inl refl, g)
      ])
