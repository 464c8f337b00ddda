-- ===== src/Report/Detail/SizeRanks.antt =====
-- report.c: the lines of the ranks in the sections on data sent, input and output and remote memory
-- access.
use mpi_pv.Prelude.{
  ℕ, ◌≡◌, refl, ap, ◌∙◌, inl, inr, Bool, true, false, ◌&&◌, not, List, [], ◌∷◌, ◌++◌, map, keep,
  ltb, ◌==◌, Bool-cases, if◌then◌else◌,
}
use mpi_pv.Callsite.{CallsiteStats}
use mpi_pv.Report.{Line, blank, Format}
use mpi_pv.Report.Detail.{Sums, no_sums, View, add_record, size_summary, size_rank, size_loop}
use mpi_pv.Report.Detail.Site.{site}
use mpi_pv.Report.Detail.SizeSites.{is_size_rank, live}

module _ (v : View) (rf sf : Format) (c : ℕ) where
  is_size_rank-size_rank : (p : CallsiteStats) → is_size_rank c (size_rank v rf p) ≡ (p.csid == c)
  unfolding is_size_rank size_rank
  is_size_rank-size_rank p = refl

  is_size_rank-size_summary :
      (op d : ℕ) (s : Sums) → is_size_rank c (size_summary sf op d s) ≡ false
  unfolding is_size_rank size_summary
  is_size_rank-size_summary op d s = refl

  is_size_rank-blank : is_size_rank c blank ≡ false
  unfolding is_size_rank
  is_size_rank-blank = refl

  -- Of the lines of one round only the rank's line can be one of a rank.
  ranked :
      (e : Bool) (p : CallsiteStats) (l : List Line)
      → keep (is_size_rank c) ((if e then size_rank v rf p ∷ [] else []) ++ l)
        ≡ (if e then (if p.csid == c then size_rank v rf p ∷ [] else []) else [])
          ++ keep (is_size_rank c) l
  ranked true p l =
      rw (is_size_rank-size_rank p)
        (elim (Bool-cases (p.csid == c)) [ inl h ↦ rw h refl | inr h ↦ rw h refl ])
  ranked false p l = refl

  blanks :
      (d : Bool) (l : List Line)
      → keep (is_size_rank c) ((if d then blank ∷ [] else []) ++ l) ≡ keep (is_size_rank c) l
  blanks true l = rw is_size_rank-blank refl
  blanks false l = refl

  summaries :
      (b : Bool) (op k : ℕ) (s : Sums) (l : List Line)
      → keep (is_size_rank c) ((if b then size_summary sf op k s ∷ [] else []) ++ l)
        ≡ keep (is_size_rank c) l
  summaries true op k s l = rw (is_size_rank-size_summary op k s) refl
  summaries false op k s l = refl

  pub ranks :
      (prev : CallsiteStats) (last : ℕ) (s : Sums) (av : List CallsiteStats)
      → keep (is_size_rank c) (size_loop v rf sf prev last s av)
        ≡ map (size_rank v rf) (live v (site c av))
  unfolding size_loop
  ranks prev last s [] = elim (Bool-cases (ltb 0 s.cumulative)) [
    | inl k ↦ rw (k, is_size_rank-size_summary prev.op prev.csid s) refl
    | inr k ↦ rw k refl
  ]
  ranks prev last s (p ∷ av) =
      let counts = ltb 0 (v.cumulative p) in
      let next = ltb 0 s.cumulative && not (p.csid == prev.csid) in
      let s' = if next then no_sums else s in
      let gap = counts && (not (last == 0) && not (last == p.csid)) in
      let last' = if counts then p.csid else last in
      let s'' = if counts then add_record v p s' else s' in
      let tail = size_loop v rf sf p last' s'' av in
      let mine = if counts then size_rank v rf p ∷ [] else [] in
      summaries next prev.op prev.csid s ((if gap then blank ∷ [] else []) ++ (mine ++ tail))
      ∙ blanks gap (mine ++ tail)
      ∙ ranked counts p tail
      ∙ ap (λ l. (if counts then (if p.csid == c then size_rank v rf p ∷ [] else []) else []) ++ l)
          (ranks p last' s'' av)
      ∙ collected counts refl
    where
      collected :
          (e : Bool)
          → ltb 0 (v.cumulative p) ≡ e
          → (if e then (if p.csid == c then size_rank v rf p ∷ [] else []) else [])
              ++ map (size_rank v rf) (live v (site c av))
            ≡ map (size_rank v rf) (live v (site c (p ∷ av)))
      collected true k = elim (Bool-cases (p.csid == c)) [
        | inl h ↦ rw h (rw k refl)
        | inr h ↦ rw h refl
      ]
      collected false k = elim (Bool-cases (p.csid == c)) [
        | inl h ↦ rw h (rw k refl)
        | inr h ↦ rw h refl
      ]
