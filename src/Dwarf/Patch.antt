-- ===== src/Dwarf/Patch.antt =====
-- pc_lookup_dwarf.c: the ends that `AddrToSourceMap_PatchRanges` gives to the ranges, and what a search
-- finds then.
use mathlib.Core.Option
use mpi_pv.Prelude.{
  ℕ, ◌+◌, ◌-◌, ◌^◌, ◌≤◌, ◌<◌, ◌≡◌, refl, sym, ap, ◌∙◌, true, false, inl, inr, Option, none, some,
  List, [], ◌∷◌, ◌++◌, All, All-map, leb, leb→le, ◌&&◌, if◌then◌else◌, Bool-cases, Option-cases,
  arith,
}
use mpi_pv.RangeMap.{Range, Tree, leaf, node, find_info}
use mpi_pv.RangeMap.Order.{ranges}
use mpi_pv.RangeMap.Find.{search_all, Separated, find_node-search_all}
use mpi_pv.Dwarf.{minus_one, patch_ranges_aux, patch_ranges}

minus_one_lem : (a : ℕ) → 0 < a → a < 2 ^ 64 → minus_one a + 1 ≡ a
unfolding minus_one
minus_one_lem a h k = omega arith

module _ {I : Type 0} where
  abbrev pub next_low : ℕ → List (Range I) → ℕ
  next_low m [] = m
  next_low m (x ∷ xs) = x.low

  -- Each range ends before the next begins, the last one before `m`.
  unfoldable pub patched : ℕ → List (Range I) → List (Range I)
  patched m [] = []
  patched m (x ∷ xs) = record x { high = minus_one (next_low m xs) } ∷ patched m xs

  next_low-append :
      (m : ℕ) (xs : List (Range I)) (y : Range I) (ys : List (Range I))
      → next_low m (xs ++ (y ∷ ys)) ≡ next_low y.low xs
  next_low-append m [] y ys = refl
  next_low-append m (x ∷ xs) y ys = refl

  patched-append :
      (m : ℕ) (xs : List (Range I)) (y : Range I) (ys : List (Range I))
      → patched m (xs ++ (y ∷ ys)) ≡ patched y.low xs ++ patched m (y ∷ ys)
  unfolding patched
  patched-append m [] y ys = refl
  patched-append m (x ∷ xs) y ys = rw (next_low-append m xs y ys, patched-append m xs y ys) refl

  pub ranges-patched :
      (m : ℕ) (t : Tree I)
      → (ranges (patch_ranges_aux t m).0 ≡ patched m (ranges t))
        × ((patch_ranges_aux t m).1 ≡ next_low m (ranges t))
  unfolding patch_ranges_aux ranges
  ranges-patched m leaf = (unfold patched in refl, refl)
  ranges-patched m (node c r a b) =
      let (ra, la) = ranges-patched r.low a in
      let (rb, lb) = ranges-patched m b in
      (
        rw (ra, rb, lb, patched-append m (ranges a) r (ranges b)) (unfold patched in refl),
        la ∙ sym (next_low-append m (ranges a) r (ranges b)),
      )

  -- Every range begins after the one before.
  abbrev pub Rising : List (Range I) → Type 0
  Rising [] = Unit
  Rising (x ∷ xs) = All (λ y. x.low < y.low) xs × Rising xs

  next_low-bounds :
      (m l : ℕ) (xs : List (Range I))
      → l < m
      → m < 2 ^ 64
      → All (λ y. l < y.low) xs
      → All (λ y. y.low < m) xs
      → (l < next_low m xs) × (next_low m xs < 2 ^ 64)
  next_low-bounds m l [] h k a b = (h, k)
  next_low-bounds m l (x ∷ xs) h k a b = (a.0, omega (arith, b.0))

  patched-lows :
      (P : ℕ → Type 0) (m : ℕ) (xs : List (Range I))
      → All (λ y. P y.low) xs
      → All (λ y. P y.low) (patched m xs)
  unfolding patched
  patched-lows P m [] h = tt
  patched-lows P m (x ∷ xs) h = (h.0, patched-lows P m xs h.1)

  Rising-next :
      (m : ℕ) (xs : List (Range I))
      → Rising xs
      → All (λ y. y.low < m) xs
      → All (λ y. next_low m xs ≤ y.low) xs
  Rising-next m [] r b = tt
  Rising-next m (x ∷ xs) r b = (omega arith, All-map (λ y h. omega arith) xs r.0)

  patched-Separated :
      (m : ℕ) (xs : List (Range I))
      → m < 2 ^ 64
      → Rising xs
      → All (λ y. y.low < m) xs
      → Separated (patched m xs)
  unfolding patched
  patched-Separated m [] k r b = tt
  patched-Separated m (x ∷ xs) k r b =
      let (lo, hi) = next_low-bounds m x.low xs b.0 k r.0 b.1 in
      let e = minus_one_lem (next_low m xs) (omega (arith, lo)) hi in
      (
        omega (arith, e, lo),
        patched-lows (λ l. minus_one (next_low m xs) < l) m xs
            (All-map (λ y h. omega (arith, e)) xs (Rising-next m xs r.1 b.1)),
        patched-Separated m xs k r.1 b.1,
      )

  -- The last of the ranges that begins at or before an address: what is known of the address.
  unfoldable pub nearest : ℕ → List (Range I) → Option I
  nearest addr [] = none
  nearest addr (x ∷ xs) = elim (nearest addr xs) [
    | some i ↦ some i
    | none ↦ if leb x.low addr then some x.info else none
  ]

  nearest-none :
      (addr : ℕ) (xs : List (Range I)) → All (λ y. addr < y.low) xs → nearest addr xs ≡ none
  unfolding nearest
  nearest-none addr [] h = refl
  nearest-none addr (x ∷ xs) h = ground (arith, h.0, nearest-none addr xs h.1)

  nearest-some :
      (addr : ℕ) (x : Range I) (xs : List (Range I))
      → x.low ≤ addr
      → (i : I) × (nearest addr (x ∷ xs) ≡ some i)
  unfolding nearest
  nearest-some addr x xs h = elim (Option-cases (nearest addr xs)) [
    | inl e ↦ (x.info, ground (arith, e))
    | inr (i, e) ↦ (i, rw e refl)
  ]

  search-nearest :
      (m addr : ℕ) (xs : List (Range I))
      → m < 2 ^ 64
      → addr < m
      → Rising xs
      → All (λ y. y.low < m) xs
      → Option.map (λ r. r.info) (search_all addr (patched m xs)) ≡ nearest addr xs
  unfolding patched search_all nearest
  search-nearest m addr [] k lt r b = refl
  search-nearest m addr (x ∷ xs) k lt r b =
      let (lo, hi) = next_low-bounds m x.low xs b.0 k r.0 b.1 in
      let e = minus_one_lem (next_low m xs) (omega (arith, lo)) hi in
      let ih = search-nearest m addr xs k lt r.1 b.1 in
      elim (Bool-cases (leb (next_low m xs) addr)) [
        | inl c ↦
            let out : (leb x.low addr && leb addr (minus_one (next_low m xs))) ≡ false =
              ground (arith, c, e, lo) in
            let (i, s) = some_nearest m addr xs lt c in rw (out, s) (ih ∙ s)
        | inr c ↦
            let no_later : nearest addr xs ≡ none =
              nearest-none addr xs
                (All-map (λ y h. ground (arith, h, c)) xs (Rising-next m xs r.1 b.1)) in
            let up : leb addr (minus_one (next_low m xs)) ≡ true = ground (arith, c, e) in
            elim (Bool-cases (leb x.low addr)) [
              | inl d ↦ rw (d, up, no_later, d) refl
              | inr d ↦ rw (d, no_later, d) (ih ∙ no_later)
            ]
      ]
    where
      some_nearest :
          (m addr : ℕ) (xs : List (Range I))
          → addr < m
          → leb (next_low m xs) addr ≡ true
          → (i : I) × (nearest addr xs ≡ some i)
      some_nearest m addr [] lt c = absurd (ground (arith, c))
      some_nearest m addr (x ∷ xs) lt c = nearest-some addr x xs (leb→le x.low addr c)

  -- If the ranges begin at different addresses, each before the greatest address, then with the ends that
  -- are patched the search for any other address than the greatest one finds what is known of the nearest
  -- address at or before it.
  pub find_info-patched :
      (t : Tree I) (addr : ℕ)
      → Rising (ranges t)
      → All (λ r. r.low < 2 ^ 64 - 1) (ranges t)
      → addr < 2 ^ 64 - 1
      → find_info (patch_ranges t) addr ≡ nearest addr (ranges t)
  unfolding find_info patch_ranges
  find_info-patched t addr r b lt =
      let m = 2 ^ 64 - 1 in
      let same = (ranges-patched m t).0 in
      let sep : Separated (ranges (patch_ranges_aux t m).0) =
        rw same (patched-Separated m (ranges t) (omega arith) r b) in
      ap (Option.map (λ q. q.info))
        (find_node-search_all addr (patch_ranges_aux t m).0 sep ∙ ap (search_all addr) same)
      ∙ search-nearest m addr (ranges t) (omega arith) lt r b
