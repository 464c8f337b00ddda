-- ===== src/Report/Concise/Counts.antt =====
-- report.c: what the variables of a concise section hold after the records of a call site.
use mathlib.Core.List.{Mem, mem-cons_self, mem-cons_of_mem}
use mpi_pv.Prelude.{
  ℕ, ◌+◌, ◌≤◌, ◌≡◌, refl, sym, ◌∙◌, ◌⊎◌, inl, inr, Option, some, List, [], ◌∷◌, All, All-map, arith,
  length, ltb, Bool-cases, true,
}
use mpi_pv.Callsite.{CallsiteStats}
use mpi_pv.Report.Concise.{RankSums, no_rank_sums, count_rank}
use mpi_pv.Report.Concise.Entries.{count_all}

-- A number of the records summed
abbrev pub sum_by : (CallsiteStats → ℕ) → List CallsiteStats → ℕ
sum_by f [] = 0
sum_by f (p ∷ ps) = f p + sum_by f ps

-- The rank is that of one of the records, which has this value.
abbrev pub RankOf : (CallsiteStats → ℕ) → List CallsiteStats → Option ℕ → ℕ → Type 0
RankOf f ps rank value = (p : CallsiteStats) × Mem p ps × (rank ≡ some p.rank) × (f p ≡ value)

-- What the variables `t` hold after the records `ps`, when they held `s` before.
pub record Counts (f : CallsiteStats → ℕ) (s : RankSums) (ps : List CallsiteStats) (t : RankSums)
    : Type 0 where
  pub counted : t.count ≡ s.count + length ps
  pub summed : t.cumulative ≡ s.cumulative + sum_by f ps
  pub bounded : All (λ p. (t.least ≤ f p) × (f p ≤ t.greatest)) ps
  pub above : s.greatest ≤ t.greatest
  pub below : t.least ≤ s.least
  pub most :
      ((t.max_rnk ≡ s.max_rnk) × (t.greatest ≡ s.greatest)) ⊎ RankOf f ps t.max_rnk t.greatest
  pub fewest : ((t.min_rnk ≡ s.min_rnk) × (t.least ≡ s.least)) ⊎ RankOf f ps t.min_rnk t.least

module _ (f : CallsiteStats → ℕ) where
  RankOf-cons :
      {p : CallsiteStats} {ps : List CallsiteStats} {rank : Option ℕ} {value : ℕ}
      → RankOf f ps rank value
      → RankOf f (p ∷ ps) rank value
  RankOf-cons {p} (q, m, r, v) = (q, mem-cons_of_mem p m, r, v)

  -- One round: the variables keep what they hold, or take it from the record.
  count_rank-most :
      (p : CallsiteStats) (s : RankSums)
      → ((count_rank f p s).max_rnk ≡ s.max_rnk) × ((count_rank f p s).greatest ≡ s.greatest)
        ⊎ ((count_rank f p s).max_rnk ≡ some p.rank) × ((count_rank f p s).greatest ≡ f p)
  unfolding count_rank
  count_rank-most p s = elim (Bool-cases (ltb s.greatest (f p))) [
    | inl e ↦ rw e (inr (refl, refl))
    | inr e ↦ rw e (inl (refl, refl))
  ]

  count_rank-fewest :
      (p : CallsiteStats) (s : RankSums)
      → ((count_rank f p s).min_rnk ≡ s.min_rnk) × ((count_rank f p s).least ≡ s.least)
        ⊎ ((count_rank f p s).min_rnk ≡ some p.rank) × ((count_rank f p s).least ≡ f p)
  unfolding count_rank
  count_rank-fewest p s = elim (Bool-cases (ltb (f p) s.least)) [
    | inl e ↦ rw e (inr (refl, refl))
    | inr e ↦ rw e (inl (refl, refl))
  ]

  count_rank-bounds :
      (p : CallsiteStats) (s : RankSums)
      → (s.greatest ≤ (count_rank f p s).greatest)
        × (f p ≤ (count_rank f p s).greatest)
        × ((count_rank f p s).least ≤ s.least)
        × ((count_rank f p s).least ≤ f p)
  unfolding count_rank
  count_rank-bounds p s = (ground arith, ground arith, ground arith, ground arith)

  count_rank-sums :
      (p : CallsiteStats) (s : RankSums)
      → ((count_rank f p s).count ≡ s.count + 1)
        × ((count_rank f p s).cumulative ≡ s.cumulative + f p)
  unfolding count_rank
  count_rank-sums p s = (refl, refl)

  pub count_all-Counts : (ps : List CallsiteStats) (s : RankSums) → Counts f s ps (count_all f ps s)
  count_all-Counts [] s = record {
    counted = omega arith;
    summed = omega arith;
    bounded = tt;
    above = omega arith;
    below = omega arith;
    most = inl (refl, refl);
    fewest = inl (refl, refl);
  }
  count_all-Counts (p ∷ ps) s =
      let ih = count_all-Counts ps (count_rank f p s) in
      let (a, b, c, d) = count_rank-bounds p s in
      let (n, k) = count_rank-sums p s in
      record {
        counted = omega (arith, ih.counted, n);
        summed = omega (arith, ih.summed, k);
        bounded = ((omega (arith, ih.below, d), omega (arith, ih.above, b)), ih.bounded);
        above = omega (arith, ih.above, a);
        below = omega (arith, ih.below, c);
        most = elim ih.most [
          | inr o ↦ inr (RankOf-cons o)
          | inl (r, v) ↦ elim (count_rank-most p s) [
            | inl (r', v') ↦ inl (r ∙ r', v ∙ v')
            | inr (r', v') ↦ inr (p, mem-cons_self, r ∙ r', sym (v ∙ v'))
          ]
        ];
        fewest = elim ih.fewest [
          | inr o ↦ inr (RankOf-cons o)
          | inl (r, v) ↦ elim (count_rank-fewest p s) [
            | inl (r', v') ↦ inl (r ∙ r', v ∙ v')
            | inr (r', v') ↦ inr (p, mem-cons_self, r ∙ r', sym (v ∙ v'))
          ]
        ];
      }

  nothing_summed : (ps : List CallsiteStats) → All (λ p. f p ≤ 0) ps → sum_by f ps ≡ 0
  nothing_summed [] h = refl
  nothing_summed (p ∷ ps) h = omega (arith, h.0, nothing_summed ps h.1)

  -- With something to count there is a rank with the most.
  pub RankOf-most :
      (ps : List CallsiteStats)
      → ltb 0 (sum_by f ps) ≡ true
      → (let t = count_all f ps no_rank_sums in RankOf f ps t.max_rnk t.greatest)
  RankOf-most ps some_data =
      let c = count_all-Counts ps no_rank_sums in
      elim c.most [
        | inr o ↦ o
        | inl (r, v) ↦
            let zero_sum =
              nothing_summed ps (All-map (λ p h. omega (arith, h.1, v)) ps c.bounded) in
            absurd (ground (arith, some_data, zero_sum))
      ]
