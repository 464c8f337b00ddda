-- ===== src/Report/TopCells/Rows.antt =====
-- report.c: the sections with the greatest cells of the histograms write the cells that are not 0.
use mathlib.Core.List.{Perm, Mem, mem-cons_self, mem-append_left, mem-append_right}
use native.Mathlib.Bridge.{le_prop}
use mathlib.Core.List.Perm
use mpi_pv.Prelude.{
  ℕ, zero, suc, ◌+◌, ◌≤◌, ◌<◌, ◌≡◌, refl, ap, inl, inr, none, List, [], ◌∷◌, ◌++◌, map, All,
  All-append, All-of_Mem, All-mem, arith, ltb, lt→ltb, false, Ordering, true, ==_iff, ◌==◌,
  Bool-cases, if◌then◌else◌,
}
use mpi_pv.Callsite.{express}
use mpi_pv.State.{Histogram, Histograms}
use mpi_pv.Report.{
  Section, aggregate_collective_section, aggregate_pt2pt_section, Line, heading, Report,
}
use mpi_pv.Report.Top.{SortOf}
use mpi_pv.Report.Order.{IsQsort, descending-IsOrder}
use mpi_pv.Report.Twenty.{TopOf, shown, others, Falls-of_Sorted, shown-TopOf}
use mpi_pv.Report.TopCells.{
  Place, value, places_z, places_y, places_x, all_call_count, histogram_sort_by_value, cell_line,
  cell_rows, or_none, print_top_collective_sent_sites, print_top_pt2pt_sent_sites,
}

module _ (stats : Histograms) where
  abbrev pub Positive : Place → Type 0
  Positive c = 0 < value stats c

  places_z-Positive : (x y left z : ℕ) → All Positive (places_z stats x y left z)
  unfolding places_z
  places_z-Positive x y zero z = tt
  places_z-Positive x y (suc left) z = elim (Bool-cases (ltb 0 (stats x y z))) [
    | inl e ↦ rw e (ground (arith, e), places_z-Positive x y left (z + 1))
    | inr e ↦ rw e (places_z-Positive x y left (z + 1))
  ]

  places_y-Positive : (sizes x left y : ℕ) → All Positive (places_y stats sizes x left y)
  unfolding places_y
  places_y-Positive sizes x zero y = tt
  places_y-Positive sizes x (suc left) y =
      All-append Positive (places_z stats x y sizes 0) (places_y stats sizes x left (y + 1))
        (places_z-Positive x y sizes 0) (places_y-Positive sizes x left (y + 1))

  places_x-Positive : (comms sizes left x : ℕ) → All Positive (places_x stats comms sizes left x)
  unfolding places_x
  places_x-Positive comms sizes zero x = tt
  places_x-Positive comms sizes (suc left) x =
      All-append Positive (places_y stats sizes x comms 0) (places_x stats comms sizes left (x + 1))
        (places_y-Positive sizes x comms 0) (places_x-Positive comms sizes left (x + 1))

  abbrev pub place : ℕ → ℕ → ℕ → Place
  place x y z = record { x = x; y = y; z = z }

  places_z-mem :
      (x y left z₀ z : ℕ)
      → z₀ ≤ z
      → z < z₀ + left
      → 0 < stats x y z
      → Mem (place x y z) (places_z stats x y left z₀)
  unfolding places_z
  places_z-mem x y zero z₀ z lo hi p = absurd (omega arith)
  places_z-mem x y (suc left) z₀ z lo hi p = elim (Bool-cases (z₀ == z)) [
    | inl e ↦ here z₀ z e p
    | inr e ↦
        mem-append_right _ (places_z-mem x y left (z₀ + 1) z (ground (arith, e)) (omega arith) p)
  ]
    where
      here :
          (z₀ z : ℕ)
          → (z₀ == z) ≡ true
          → 0 < stats x y z
          → Mem (place x y z) (
              (if ltb 0 (stats x y z₀) then place x y z₀ ∷ [] else [])
              ++ places_z stats x y left (z₀ + 1))
      here z₀ z e p = rw ((==_iff z₀ z).0 e, lt→ltb 0 (stats x y z) p) mem-cons_self

  places_y-mem :
      (sizes x left y₀ y z : ℕ)
      → y₀ ≤ y
      → y < y₀ + left
      → z < sizes
      → 0 < stats x y z
      → Mem (place x y z) (places_y stats sizes x left y₀)
  unfolding places_y
  places_y-mem sizes x zero y₀ y z lo hi hz p = absurd (omega arith)
  places_y-mem sizes x (suc left) y₀ y z lo hi hz p = elim (Bool-cases (y₀ == y)) [
    | inl e ↦
        rw ((==_iff y₀ y).0 e)
          (mem-append_left _ (places_z-mem x y sizes 0 z (omega arith) (omega arith) p))
    | inr e ↦
        mem-append_right _
          (places_y-mem sizes x left (y₀ + 1) y z (ground (arith, e)) (omega arith) hz p)
  ]

  places_x-mem :
      (comms sizes left x₀ x y z : ℕ)
      → x₀ ≤ x
      → x < x₀ + left
      → y < comms
      → z < sizes
      → 0 < stats x y z
      → Mem (place x y z) (places_x stats comms sizes left x₀)
  unfolding places_x
  places_x-mem comms sizes zero x₀ x y z lo hi hy hz p = absurd (omega arith)
  places_x-mem comms sizes (suc left) x₀ x y z lo hi hy hz p = elim (Bool-cases (x₀ == x)) [
    | inl e ↦
        rw ((==_iff x₀ x).0 e)
          (mem-append_left _ (places_y-mem sizes x comms 0 y z (omega arith) (omega arith) hz p))
    | inr e ↦
        mem-append_right _
          (places_x-mem comms sizes left (x₀ + 1) x y z (ground (arith, e)) (omega arith) hy hz p)
  ]

  cell_rows-shown :
      (line : Place → Line) (n : ℕ) (cs : List Place)
      → All Positive cs
      → cell_rows n stats line cs ≡ map line (shown (value stats) n cs)
  unfolding cell_rows shown
  cell_rows-shown line zero cs h = refl
  cell_rows-shown line (suc n) [] h = refl
  cell_rows-shown line (suc n) (c ∷ cs) h =
      let nonzero : (value stats c == 0) ≡ false = ground (arith, h.0) in
      rw (nonzero, lt→ltb 0 (value stats c) h.0)
        (ap (λ l. line c ∷ l) (cell_rows-shown line n cs h.1))

  All-of_Perm : (xs ys : List Place) → Perm xs ys → All Positive ys → All Positive xs
  All-of_Perm xs ys p h =
      All-of_Mem Positive xs (λ a m. All-mem Positive (λ c. le_prop) ys h a ((Perm.mem_iff p).0 m))

-- What a section writes: lines for the at most twenty greatest of the cells that are not 0, all of
-- which are found, or that there are none.
abbrev pub WritesCells : ℕ → Section → Histogram → Histogram → Histograms → ℕ → List Line → Type 0
WritesCells gate section comms sizes stats total printed =
    (found : List Place) × (best : List Place) × (rest : List Place) × ((x y z : ℕ)
      → x < all_call_count
      → y < comms.hist_size
      → z < sizes.hist_size
      → 0 < stats x y z
      → Mem (place stats x y z) found)
    × All (Positive stats) found
    × TopOf (value stats) 20 found best rest
    × (printed ≡ (
        if ltb 0 gate
        then heading section none ∷ or_none found (map (cell_line comms sizes stats total) best)
        else []))

module _ {qsort : SortOf Place} (q : IsQsort qsort) where
  section-WritesCells :
      (gate : ℕ) (section : Section) (comms sizes : Histogram) (stats : Histograms) (total : ℕ)
      → WritesCells gate section comms sizes stats total (
          let found = places_x stats comms.hist_size sizes.hist_size all_call_count 0 in
          if ltb 0 gate
          then heading section none
            ∷ or_none found (
                cell_rows 20 stats
                  (cell_line comms sizes stats total)
                  (qsort (histogram_sort_by_value stats) found))
          else [])
  unfolding histogram_sort_by_value
  section-WritesCells gate section comms sizes stats total =
      let found = places_x stats comms.hist_size sizes.hist_size all_call_count 0 in
      let cmp = λ (a : Place) (b : Place). express (value stats b) (value stats a) Ordering.eq in
      let cs = qsort cmp found in
      let p = q.permutes cmp found in
      let positive = places_x-Positive stats comms.hist_size sizes.hist_size all_call_count 0 in
      let falls =
        Falls-of_Sorted (value stats) cs (q.sorts cmp found (descending-IsOrder (value stats))) in
      let same =
        cell_rows-shown stats (cell_line comms sizes stats total) 20 cs
          (All-of_Perm stats cs found p positive) in
      (
        found,
        shown (value stats) 20 cs,
        others (value stats) 20 cs,
        λ x y z hx hy hz pos.
            places_x-mem stats comms.hist_size sizes.hist_size all_call_count 0 x y z (omega arith)
              (omega arith) hy hz pos,
        positive,
        shown-TopOf (value stats) 20 cs found falls p,
        ap (λ l. if ltb 0 gate then heading section none ∷ or_none found l else []) same,
      )

  -- If `qsort` sorts: of the cells of a histogram that are not 0, the section on it has lines for the at
  -- most twenty greatest, or says that there are none; the section on collective time, too, is left
  -- out if no data was sent.
  pub print_top_cells-WritesCells :
      (r : Report)
      → WritesCells r.totals.global_mpi_size aggregate_collective_section r.coll_comm_histogram
          r.coll_size_histogram r.coll_time_stats r.totals.global_mpi_time
          (print_top_collective_sent_sites qsort r)
        × WritesCells r.totals.global_mpi_size aggregate_pt2pt_section r.pt2pt_comm_histogram
            r.pt2pt_size_histogram r.pt2pt_send_stats r.totals.global_mpi_size
            (print_top_pt2pt_sent_sites qsort r)
  unfolding print_top_collective_sent_sites print_top_pt2pt_sent_sites
  print_top_cells-WritesCells r = (section-WritesCells _ _ _ _ _ _, section-WritesCells _ _ _ _ _ _)
