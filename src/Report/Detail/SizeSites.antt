-- ===== src/Report/Detail/SizeSites.antt =====
-- report.c: what the sections on data sent, input and output and remote memory access write for one
-- call site.
use mathlib.Core.List.{append-nil}
use mpi_pv.Prelude.{
  ℕ, ◌≡◌, ◌≢◌, refl, sym, ap, ◌∙◌, inl, inr, Bool, true, false, List, [], ◌∷◌, ◌++◌, keep, arith,
  ltb, ◌==◌, Bool-cases, ==_iff, if◌then◌else◌,
}
use mpi_pv.Callsite.{CallsiteStats}
use mpi_pv.Report.{num, star, Line, row, blank, Format}
use mpi_pv.Report.Runs.{Ends, Grouped, OneOp}
use mpi_pv.Report.Detail.{Sums, no_sums, View, add_record, size_summary, size_rank, size_loop}
use mpi_pv.Report.Detail.Site.{site, add_all, site_of_Ends, ne_test, test_ne, Ends-after}

-- Whether a line is the summary of a call site, or one of its ranks' lines.
unfoldable pub is_size_summary : ℕ → Line → Bool
is_size_summary c (row f (name ∷ num d ∷ star ∷ cells)) = d == c
is_size_summary c l = false

unfoldable pub is_size_rank : ℕ → Line → Bool
is_size_rank c (row f (name ∷ num d ∷ num k ∷ cells)) = d == c
is_size_rank c l = false

-- The records in which there is something to count.
abbrev pub live : View → List CallsiteStats → List CallsiteStats
live v av = keep (λ p. ltb 0 (v.cumulative p)) av

-- With nothing accumulated, the sums are as they start.
abbrev pub Clean : Sums → Type 0
Clean s = ltb 0 s.cumulative ≡ false → s ≡ no_sums

-- The summary of the site `d`, if there is anything to sum up.
unfoldable pub size_due : Format → ℕ → ℕ → Sums → List Line
size_due sf op d s = if ltb 0 s.cumulative then size_summary sf op d s ∷ [] else []

module _ (v : View) (rf sf : Format) (c : ℕ) where
  is_size_summary-size_summary :
      (op d : ℕ) (s : Sums) → is_size_summary c (size_summary sf op d s) ≡ (d == c)
  unfolding is_size_summary size_summary
  is_size_summary-size_summary op d s = refl

  is_size_summary-size_rank : (p : CallsiteStats) → is_size_summary c (size_rank v rf p) ≡ false
  unfolding is_size_summary size_rank
  is_size_summary-size_rank p = refl

  is_size_summary-blank : is_size_summary c blank ≡ false
  unfolding is_size_summary
  is_size_summary-blank = refl

  -- The lines of one record, of which none is a summary.
  skips :
      (b d : Bool) (p : CallsiteStats) (l : List Line)
      → keep
          (is_size_summary c)
          ((if b then blank ∷ [] else []) ++ ((if d then size_rank v rf p ∷ [] else []) ++ l))
        ≡ keep (is_size_summary c) l
  skips true true p l = rw (is_size_summary-blank, is_size_summary-size_rank p) refl
  skips true false p l = rw is_size_summary-blank refl
  skips false true p l = rw (is_size_summary-size_rank p) refl
  skips false false p l = refl

  -- The sums after a record.
  abbrev counted : CallsiteStats → Sums → Sums
  counted p s = if ltb 0 (v.cumulative p) then add_record v p s else s

  abbrev lastly : CallsiteStats → ℕ → ℕ
  lastly p last = if ltb 0 (v.cumulative p) then p.csid else last

  -- One round of the loop, in which the site stays or changes.
  stays :
      (prev p : CallsiteStats) (last : ℕ) (s : Sums) (av : List CallsiteStats)
      → (p.csid == prev.csid) ≡ true
      → keep (is_size_summary c) (size_loop v rf sf prev last s (p ∷ av))
        ≡ keep (is_size_summary c) (size_loop v rf sf p (lastly p last) (counted p s) av)
  unfolding size_loop
  stays prev p last s av e = elim (Bool-cases (ltb 0 s.cumulative)) [
    | inl k ↦ rw (e, k) (skips _ _ p _)
    | inr k ↦ rw (e, k) (skips _ _ p _)
  ]

  changes :
      (prev p : CallsiteStats) (last : ℕ) (s : Sums) (av : List CallsiteStats)
      → (p.csid == prev.csid) ≡ false
      → Clean s
      → keep (is_size_summary c) (size_loop v rf sf prev last s (p ∷ av))
        ≡ keep (is_size_summary c) (size_due sf prev.op prev.csid s)
          ++ keep (is_size_summary c) (size_loop v rf sf p (lastly p last) (counted p no_sums) av)
  unfolding size_loop size_due
  changes prev p last s av e clean = elim (Bool-cases (ltb 0 s.cumulative)) [
    | inl k ↦
        rw (e, k, is_size_summary-size_summary prev.op prev.csid s)
          (elim (Bool-cases (prev.csid == c)) [
            | inl h ↦ rw h (ap (λ l. size_summary sf prev.op prev.csid s ∷ l) (skips _ _ p _))
            | inr h ↦ rw h (skips _ _ p _)
          ])
    | inr k ↦ rw (e, k, clean k) (skips _ _ p _)
  ]

  due-other : (op d : ℕ) (s : Sums) → d ≢ c → keep (is_size_summary c) (size_due sf op d s) ≡ []
  unfolding size_due
  due-other op d s ne = elim (Bool-cases (ltb 0 s.cumulative)) [
    | inl k ↦ rw (k, is_size_summary-size_summary op d s, ne_test ne) refl
    | inr k ↦ rw k refl
  ]

  due-own :
      (op d : ℕ) (s : Sums)
      → d ≡ c
      → keep (is_size_summary c) (size_due sf op d s) ≡ size_due sf op d s
  unfolding size_due
  due-own op d s e = elim (Bool-cases (ltb 0 s.cumulative)) [
    | inl k ↦ rw (k, is_size_summary-size_summary op d s, (==_iff d c).1 e) refl
    | inr k ↦ rw k refl
  ]

  last_round :
      (prev : CallsiteStats) (last : ℕ) (s : Sums)
      → size_loop v rf sf prev last s [] ≡ size_due sf prev.op prev.csid s
  unfolding size_loop size_due
  last_round prev last s = refl

  counted-Clean : (p : CallsiteStats) (s : Sums) → Clean s → Clean (counted p s)
  unfolding add_record
  counted-Clean p s h = elim (Bool-cases (ltb 0 (v.cumulative p))) [
    | inl k ↦ rw k (λ z. absurd (ground arith))
    | inr k ↦ rw k h
  ]

  gone :
      (prev : CallsiteStats) (last : ℕ) (s : Sums) (av : List CallsiteStats)
      → prev.csid ≢ c
      → Ends c av
      → Clean s
      → keep (is_size_summary c) (size_loop v rf sf prev last s av) ≡ []
  gone prev last s [] ne h clean = rw (last_round prev last s) (due-other prev.op prev.csid s ne)
  gone prev last s (p ∷ av) ne h clean = elim (Bool-cases (p.csid == prev.csid)) [
    | inl e ↦
        stays prev p last s av e
        ∙ gone p (lastly p last) (counted p s) av h.0 h.1 (counted-Clean p s clean)
    | inr e ↦
        rw (changes prev p last s av e clean, due-other prev.op prev.csid s ne)
          (gone p (lastly p last) (counted p no_sums) av h.0 h.1
            (counted-Clean p no_sums (λ z. refl)))
  ]

  add_live :
      (p : CallsiteStats) (s : Sums) (av : List CallsiteStats)
      → (p.csid == c) ≡ true
      → add_all v (live v (site c (p ∷ av))) s ≡ add_all v (live v (site c av)) (counted p s)
  add_live p s av e = elim (Bool-cases (ltb 0 (v.cumulative p))) [
    | inl k ↦ rw e (rw k refl)
    | inr k ↦ rw e (rw k refl)
  ]

  owned :
      (op_of : ℕ → ℕ) (prev : CallsiteStats) (s : Sums)
      → prev.csid ≡ c
      → prev.op ≡ op_of prev.csid
      → size_due sf prev.op prev.csid s ≡ size_due sf (op_of c) c s
  owned op_of prev s e o = rw (o, e) refl

  nothing : (op : ℕ) → [] ≡ size_due sf op c no_sums
  unfolding size_due
  nothing op = refl

  module _ (op_of : ℕ → ℕ) where
    pub inside :
        (prev : CallsiteStats) (last : ℕ) (s : Sums) (av : List CallsiteStats)
        → prev.csid ≡ c
        → OneOp op_of (prev ∷ av)
        → Grouped prev av
        → Clean s
        → keep (is_size_summary c) (size_loop v rf sf prev last s av)
          ≡ size_due sf (op_of c) c (add_all v (live v (site c av)) s)
    inside prev last s [] e o g clean =
        rw (last_round prev last s) (due-own prev.op prev.csid s e ∙ owned op_of prev s e o.0)
    inside prev last s (p ∷ av) e o g clean = elim (Bool-cases (p.csid == c)) [
      | inl k ↦
          let pc = (==_iff _ _).0 k in
          stays prev p last s av ((==_iff p.csid prev.csid).1 (pc ∙ sym e))
          ∙ inside p (lastly p last) (counted p s) av pc o.1 g.1 (counted-Clean p s clean)
          ∙ ap (size_due sf (op_of c) c) (sym (add_live p s av k))
      | inr k ↦
          let pc = test_ne k in
          let ends = Ends-after c prev p av e pc g.0 in
          rw
            (
              changes prev p last s av (ne_test (λ h. pc (h ∙ e))) clean,
              gone p (lastly p last) (counted p no_sums) av pc ends.1
                  (counted-Clean p no_sums (λ z. refl)),
              append-nil,
              site_of_Ends c (p ∷ av) ends,
            )
            (due-own prev.op prev.csid s e ∙ owned op_of prev s e o.0)
    ]

    pub outside :
        (prev : CallsiteStats) (last : ℕ) (s : Sums) (av : List CallsiteStats)
        → prev.csid ≢ c
        → OneOp op_of (prev ∷ av)
        → Grouped prev av
        → Clean s
        → keep (is_size_summary c) (size_loop v rf sf prev last s av)
          ≡ size_due sf (op_of c) c (add_all v (live v (site c av)) no_sums)
    outside prev last s [] ne o g clean =
        rw (last_round prev last s, due-other prev.op prev.csid s ne) (nothing (op_of c))
    outside prev last s (p ∷ av) ne o g clean = elim (Bool-cases (p.csid == c)) [
      | inl k ↦
          let pc = (==_iff _ _).0 k in
          rw
            (
              changes prev p last s av (ne_test (λ h. ne (sym h ∙ pc))) clean,
              due-other prev.op prev.csid s ne,
            )
            (inside p (lastly p last) (counted p no_sums) av pc o.1 g.1
                (counted-Clean p no_sums (λ z. refl))
              ∙ ap (size_due sf (op_of c) c) (sym (add_live p no_sums av k)))
      | inr k ↦ rw k (elim (Bool-cases (p.csid == prev.csid)) [
        | inl h ↦
            stays prev p last s av h
            ∙ outside p (lastly p last) (counted p s) av (test_ne k) o.1 g.1
                (counted-Clean p s clean)
        | inr h ↦
            rw (changes prev p last s av h clean, due-other prev.op prev.csid s ne)
              (outside p (lastly p last) (counted p no_sums) av (test_ne k) o.1 g.1
                (counted-Clean p no_sums (λ z. refl)))
      ])
    ]
