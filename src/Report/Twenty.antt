-- ===== src/Report/Twenty.antt =====
-- report.c: which call sites the sections with the twenty greatest show.
use mathlib.Core.List.{Perm, perm_middle, append-nil}
use mathlib.Core.List.Perm
use mpi_pv.Prelude.{
  ℕ, zero, suc, Ordering, true, none, ◌≤◌, ◌<◌, ◌≡◌, refl, sym, ap, ◌∙◌, Bool, List, [], ◌∷◌, ◌++◌,
  map, All, All-map, arith, length, ltb, if◌then◌else◌, Bool-cases, inl, inr,
}
use mpi_pv.Hash.{Run, ok, ◌>>=◌, gather}
use mpi_pv.Hash.Invariant.{IsValid}
use mpi_pv.Hash.Gather.{entries, gather-entries}
use mpi_pv.Callsite.{CallsiteStats, express}
use mpi_pv.Report.{
  Line, heading, Section, aggregate_time_section, aggregate_sent_section, aggregate_io_section,
  aggregate_rma_section, aggregate_mess_fmt, aggregate_io_fmt, Report, sort_by_cumulative_time,
  sort_by_cumulative_size, sort_by_cumulative_io, sort_by_cumulative_rma,
}
use mpi_pv.Report.Top.{
  Sort, summarized, top_rows, time_line, size_line, threshold_lines, print_top_time_sites,
  print_top_sent_sites, print_top_io_sites, print_top_rma_sites,
}
use mpi_pv.Report.Order.{IsQsort, Sorted, descending-IsOrder}

-- Of `all`, `shown` are the at most `n` greatest by `f`, those with 0 left out.
pub record TopOf {A : Type 0} (f : A → ℕ) (n : ℕ) (all shown others : List A) : Type 0 where
  pub split : Perm (shown ++ others) all
  pub few : length shown ≤ n
  pub positive : All (λ p. 0 < f p) shown
  pub greater : All (λ p. All (λ q. f q ≤ f p) others) shown
  pub room : length shown < n → All (λ q. f q ≡ 0) others

module _ {A : Type 0} (f : A → ℕ) where
  unfoldable pub shown : ℕ → List A → List A
  shown zero xs = []
  shown (suc n) [] = []
  shown (suc n) (x ∷ xs) = if ltb 0 (f x) then x ∷ shown n xs else shown n xs

  unfoldable pub others : ℕ → List A → List A
  others zero xs = xs
  others (suc n) [] = []
  others (suc n) (x ∷ xs) = if ltb 0 (f x) then others n xs else x ∷ others n xs

  abbrev pub Falls : List A → Type 0
  Falls [] = Unit
  Falls (x ∷ xs) = All (λ y. f y ≤ f x) xs × Falls xs

  pub shown-perm : (n : ℕ) (xs : List A) → Perm (shown n xs ++ others n xs) xs
  unfolding shown others
  shown-perm zero xs = Perm.refl xs
  shown-perm (suc n) [] = Perm.refl []
  shown-perm (suc n) (x ∷ xs) = elim (Bool-cases (ltb 0 (f x))) [
    | inl e ↦ rw e (Perm.cons x (shown-perm n xs))
    | inr e ↦
        rw e (Perm.trans (perm_middle (shown n xs) (others n xs)) (Perm.cons x (shown-perm n xs)))
  ]

  others-All {κ} : (P : A → Type κ) (n : ℕ) (xs : List A) → All P xs → All P (others n xs)
  unfolding others
  others-All P zero xs h = h
  others-All P (suc n) [] h = h
  others-All P (suc n) (x ∷ xs) h = elim (Bool-cases (ltb 0 (f x))) [
    | inl e ↦ rw e (others-All P n xs h.1)
    | inr e ↦ rw e (h.0, others-All P n xs h.1)
  ]

  shown-few : (n : ℕ) (xs : List A) → length (shown n xs) ≤ n
  unfolding shown
  shown-few zero xs = omega arith
  shown-few (suc n) [] = omega arith
  shown-few (suc n) (x ∷ xs) = ground (arith, shown-few n xs)

  shown-positive : (n : ℕ) (xs : List A) → All (λ p. 0 < f p) (shown n xs)
  unfolding shown
  shown-positive zero xs = tt
  shown-positive (suc n) [] = tt
  shown-positive (suc n) (x ∷ xs) = elim (Bool-cases (ltb 0 (f x))) [
    | inl e ↦ rw e (ground (arith, e), shown-positive n xs)
    | inr e ↦ rw e (shown-positive n xs)
  ]

  shown-greater :
      (n : ℕ) (xs : List A) → Falls xs → All (λ p. All (λ q. f q ≤ f p) (others n xs)) (shown n xs)
  unfolding shown others
  shown-greater zero xs h = tt
  shown-greater (suc n) [] h = tt
  shown-greater (suc n) (x ∷ xs) h = elim (Bool-cases (ltb 0 (f x))) [
    | inl e ↦ rw e (others-All _ n xs h.0, shown-greater n xs h.1)
    | inr e ↦ rw e (All-map (λ p g. (ground (arith, e), g)) _ (shown-greater n xs h.1))
  ]

  others-room :
      (n : ℕ) (xs : List A) → Falls xs → length (shown n xs) < n → All (λ q. f q ≡ 0) (others n xs)
  unfolding shown others
  others-room zero xs h lt = absurd (omega arith)
  others-room (suc n) [] h lt = tt
  others-room (suc n) (x ∷ xs) h few = elim (Bool-cases (ltb 0 (f x))) [
    | inl e ↦ rw e (others-room n xs h.1 (ground (arith, e)))
    | inr e ↦
        rw e (ground (arith, e), All-map (λ q le. ground (arith, e, le)) _ (others-All _ n xs h.0))
  ]

  pub Falls-of_Sorted :
      (xs : List A) → Sorted (λ p q. express (f q) (f p) Ordering.eq) xs → Falls xs
  unfolding express
  Falls-of_Sorted [] h = tt
  Falls-of_Sorted (x ∷ xs) h = (All-map (λ q d. ground (arith, d)) xs h.0, Falls-of_Sorted xs h.1)

  pub shown-TopOf :
      (n : ℕ) (xs all : List A) → Falls xs → Perm xs all → TopOf f n all (shown n xs) (others n xs)
  shown-TopOf n xs all falls p = record {
    split = Perm.trans (shown-perm n xs) p;
    few = shown-few n xs;
    positive = shown-positive n xs;
    greater = shown-greater n xs falls;
    room = others-room n xs falls;
  }

top_rows-shown :
    (f : CallsiteStats → ℕ) (line : CallsiteStats → Line) (n : ℕ) (xs : List CallsiteStats)
    → top_rows n f line xs ≡ map line (shown f n xs)
unfolding top_rows shown
top_rows-shown f line zero xs = refl
top_rows-shown f line (suc n) [] = refl
top_rows-shown f line (suc n) (x ∷ xs) = elim (Bool-cases (ltb 0 (f x))) [
  | inl e ↦ rw e (ap (λ l. line x ∷ l) (top_rows-shown f line n xs))
  | inr e ↦ rw e (top_rows-shown f line n xs)
]

-- What a section writes: nothing without `gate`, and else, below its heading, lines for the twenty
-- greatest by `f` of `all`, and then `after`.
abbrev pub Shows :
    Bool
    → Section
    → (CallsiteStats → ℕ)
    → (CallsiteStats → Line)
    → List Line
    → List CallsiteStats
    → Run (List Line)
    → Type 0
Shows gate section f line after all printed =
    (best : List CallsiteStats) × (rest : List CallsiteStats) × TopOf f 20 all best rest
    × (printed ≡ (if gate then ok (heading section none ∷ (map line best ++ after)) else ok []))

module _ {qsort : Sort} (q : IsQsort qsort) {Good : CallsiteStats → Type 0} (r : Report)
    (v : IsValid Good (summarized r)) where
  section-Shows :
      (f : CallsiteStats → ℕ) (gate : Bool) (section : Section) (line : CallsiteStats → Line)
      (after : List Line) (body : List CallsiteStats → List Line)
      → ((av : List CallsiteStats)
          → body av
            ≡ top_rows 20 f line (qsort (λ a b. express (f b) (f a) Ordering.eq) av) ++ after)
      → Shows gate section f line after (entries (summarized r)) (
          if gate
          then gather (summarized r) >>= (λ (ac, av). ok (heading section none ∷ body av))
          else ok [])
  section-Shows f gate section line after body e =
      let all = entries (summarized r) in
      let cmp = λ (a : CallsiteStats) (b : CallsiteStats). express (f b) (f a) Ordering.eq in
      let sorted = qsort cmp all in
      let falls = Falls-of_Sorted f sorted (q.sorts cmp all (descending-IsOrder f)) in
      let same : body all ≡ map line (shown f 20 sorted) ++ after =
        e all ∙ ap (λ l. l ++ after) (top_rows-shown f line 20 sorted) in
      (
        shown f 20 sorted,
        others f 20 sorted,
        shown-TopOf f 20 sorted all falls (q.permutes cmp all),
        rw (gather-entries (summarized r) v).0
            (ap (λ l. if gate then ok (heading section none ∷ l) else ok []) same),
      )

  -- If `qsort` sorts and the table that is reported on is valid, each of the four sections on the call
  -- sites with the greatest time, data sent, input and output, and remote memory access has the
  -- lines of the at most twenty greatest that are not 0, and nothing that it leaves out is greater than
  -- one that it has, or is not 0 while there is room. The last three are left out if their total is 0.
  pub print_top_sites-Shows :
      Shows true aggregate_time_section
        (λ p. p.cumulative_time)
        (time_line r)
        []
        (entries (summarized r))
        (print_top_time_sites qsort r)
      × Shows
          (ltb 0 r.totals.global_mpi_size)
          aggregate_sent_section
          (λ p. p.cumulative_data_sent)
          (size_line aggregate_mess_fmt (λ p. p.cumulative_data_sent) r.totals.global_mpi_size)
          (threshold_lines r.settings.message_count_threshold r.totals)
          (entries (summarized r))
          (print_top_sent_sites qsort r)
      × Shows
          (ltb 0 r.totals.global_mpi_io)
          aggregate_io_section
          (λ p. p.cumulative_io)
          (size_line aggregate_io_fmt (λ p. p.cumulative_io) r.totals.global_mpi_io)
          []
          (entries (summarized r))
          (print_top_io_sites qsort r)
      × Shows
          (ltb 0 r.totals.global_mpi_rma)
          aggregate_rma_section
          (λ p. p.cumulative_rma)
          (size_line aggregate_io_fmt (λ p. p.cumulative_rma) r.totals.global_mpi_rma)
          []
          (entries (summarized r))
          (print_top_rma_sites qsort r)
  unfolding print_top_time_sites print_top_sent_sites print_top_io_sites print_top_rma_sites
      sort_by_cumulative_time sort_by_cumulative_size sort_by_cumulative_io sort_by_cumulative_rma
  print_top_sites-Shows = (
    section-Shows _ true _ _ [] _ (λ av. sym (append-nil _)),
    section-Shows _ _ _ _ _ _ (λ av. refl),
    section-Shows _ _ _ _ [] _ (λ av. sym (append-nil _)),
    section-Shows _ _ _ _ [] _ (λ av. sym (append-nil _)),
  )
