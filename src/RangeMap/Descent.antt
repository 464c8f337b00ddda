-- ===== src/RangeMap/Descent.antt =====
-- pc_lookup_dwarf.c: where the first loop of `AddrRangeMap_Add` takes a new range.
use mathlib.Core.Path.{subst}
use mathlib.Core.List.{append_assoc}
use mpi_pv.Prelude.{
  ◌≤◌, ◌<◌, ◌≡◌, refl, Bool, true, false, inl, inr, List, [], ◌∷◌, ◌++◌, All, All-append,
  All-append_inv, All-map, leb, ◌||◌, Bool-cases, leb→le, arith,
}
use mpi_pv.Hash.{Run, ok, abort, overlap}
use mpi_pv.RangeMap.{Range, Tree, leaf, node, left, right, Frame, frame, descend}
use mpi_pv.RangeMap.Order.{ranges, before, after, Ordered, clashes, inserted}

module _ {I : Type 0} where
  pub Ordered-append :
      (xs ys : List (Range I))
      → Ordered (xs ++ ys)
      → Ordered xs × Ordered ys × All (λ x. All (λ y. x.high ≤ y.low) ys) xs
  Ordered-append [] ys h = (tt, h, tt)
  Ordered-append (x ∷ xs) ys h =
      let (a, b, c) = Ordered-append xs ys h.2 in
      let (d, e) = All-append_inv (λ y. x.high ≤ y.low) xs ys h.1 in ((h.0, d, a), b, (e, c))

  -- The range is above a place's ranges to the left, and below those to the right.
  abbrev pub Above : Range I → List (Range I) → Type 0
  Above e xs = All (λ x. (x.high ≤ e.low) × (x.low < e.high)) xs

  abbrev pub Below : Range I → List (Range I) → Type 0
  Below e xs = All (λ x. e.high ≤ x.low) xs

  pub inserted-between :
      (e : Range I) (xs ys : List (Range I))
      → Above e xs
      → Below e ys
      → inserted e (xs ++ ys) ≡ xs ++ (e ∷ ys)
  unfolding inserted
  inserted-between e [] [] a b = refl
  inserted-between e [] (y ∷ ys) a b = ground (arith, b.0)
  inserted-between e (x ∷ xs) ys a b = ground (arith, a.0, inserted-between e xs ys a.1 b)

  clashes-append :
      (e : Range I) (xs ys : List (Range I)) → clashes e (xs ++ ys) ≡ (clashes e xs || clashes e ys)
  clashes-append e [] ys = refl
  clashes-append e (x ∷ xs) ys = ground (arith, clashes-append e xs ys)

  clashes-Above : (e : Range I) (xs : List (Range I)) → Above e xs → clashes e xs ≡ false
  clashes-Above e [] h = refl
  clashes-Above e (x ∷ xs) h = ground (arith, h.0, clashes-Above e xs h.1)

  clashes-Below : (e : Range I) (xs : List (Range I)) → Below e xs → clashes e xs ≡ false
  clashes-Below e [] h = refl
  clashes-Below e (x ∷ xs) h = ground (arith, h.0, clashes-Below e xs h.1)

  Above-left :
      (e r : Range I) (xs ys : List (Range I))
      → Ordered xs
      → All (λ x. All (λ y. x.high ≤ y.low) (r ∷ ys)) xs
      → r.low < e.high
      → r.low ≤ e.low
      → Above e xs
  Above-left e r [] ys o h lt le = tt
  Above-left e r (x ∷ xs) ys o h lt le =
      ((omega (arith, o.0, h.0.0), omega (arith, o.0, h.0.0)), Above-left e r xs ys o.2 h.1 lt le)

  Below-right :
      (e r : Range I) (ys : List (Range I))
      → All (λ y. r.high ≤ y.low) ys
      → e.high ≤ r.high
      → Below e ys
  Below-right e r ys h le = All-map (λ y k. omega arith) ys h

  only_left :
      (e r : Range I) (xs ys : List (Range I))
      → Below e (r ∷ ys)
      → clashes e (xs ++ (r ∷ ys)) ≡ clashes e xs
  only_left e r xs ys h = ground (arith, clashes-append e xs (r ∷ ys), clashes-Below e (r ∷ ys) h)

  only_right :
      (e r : Range I) (xs ys : List (Range I))
      → Above e xs
      → r.high ≤ e.low
      → clashes e (xs ++ (r ∷ ys)) ≡ clashes e ys
  only_right e r xs ys h le = ground (arith, clashes-append e xs (r ∷ ys), clashes-Above e xs h, le)

  hit :
      (e r : Range I) (xs ys : List (Range I))
      → r.low < e.high
      → e.low < r.high
      → clashes e (xs ++ (r ∷ ys)) ≡ true
  hit e r xs ys h k = ground (arith, clashes-append e xs (r ∷ ys), h, k)

  split :
      (xs ys : List (Range I)) (r : Range I) (zs ws : List (Range I))
      → (xs ++ (ys ++ (r ∷ []))) ++ (zs ++ ws) ≡ xs ++ ((ys ++ (r ∷ zs)) ++ ws)
  split xs ys r zs ws = simp append_assoc

  -- The loop meets a range that overlaps, or it ends at a place between the lower and the higher ranges.
  abbrev pub Landing : Range I → Bool → Run (List (Frame I)) → List (Range I) → Type 0
  Landing e true out all = out ≡ abort overlap
  Landing e false out all =
      (q : List (Frame I)) × (out ≡ ok q)
      × (before q ++ after q ≡ all)
      × Above e (before q)
      × Below e (after q)

  pub descend-Landing :
      (e : Range I) (t : Tree I) (path : List (Frame I))
      → Ordered (ranges t)
      → Above e (before path)
      → Below e (after path)
      → Landing e
          (clashes e (ranges t))
          (descend e t path)
          (before path ++ (ranges t ++ after path))
  unfolding descend ranges before after
  descend-Landing e leaf path o up down = (path, refl, refl, up, down)
  descend-Landing e (node c r a b) path o up down =
      let (oa, orb, across) = Ordered-append (ranges a) (r ∷ ranges b) o in
      elim (Bool-cases (leb e.high r.low)) [
        | inl le ↦
            let high : Below e (r ∷ ranges b) = (
              leb→le e.high r.low le,
              Below-right e r (ranges b) orb.1 (ground (arith, le, orb.0)),
            ) in
            rw
              (
                le,
                only_left e r (ranges a) (ranges b) high,
                append_assoc (ranges a) (r ∷ ranges b) (after path),
              )
              (descend-Landing e a (frame left c r b ∷ path) oa up
                (high.0, All-append (λ x. e.high ≤ x.low) (ranges b) (after path) high.1 down))
        | inr gt ↦ elim (Bool-cases (leb r.high e.low)) [
          | inl le ↦
              let low : Above e (ranges a) =
                Above-left e r (ranges a) (ranges b) oa across (ground (arith, gt))
                  (ground (arith, le, orb.0)) in
              rw (gt, le, only_right e r (ranges a) (ranges b) low (leb→le r.high e.low le))
                (subst (Landing e (clashes e (ranges b)) (descend e b (frame right c r a ∷ path)))
                  (split (before path) (ranges a) r (ranges b) (after path))
                  (descend-Landing e b (frame right c r a ∷ path) orb.2
                    (All-append (λ x. (x.high ≤ e.low) × (x.low < e.high)) (before path)
                      (ranges a ++ (r ∷ [])) up
                      (All-append (λ x. (x.high ≤ e.low) × (x.low < e.high)) (ranges a) (r ∷ []) low
                        ((leb→le r.high e.low le, ground (arith, gt)), tt)))
                    down))
          | inr over ↦
              rw
                (
                  gt,
                  over,
                  hit e r (ranges a) (ranges b) (ground (arith, gt)) (ground (arith, over)),
                )
                refl
        ]
      ]
