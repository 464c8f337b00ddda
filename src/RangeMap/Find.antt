-- ===== src/RangeMap/Find.antt =====
-- pc_lookup_dwarf.c: `AddrRangeMap_Find` against a search through the ranges one by one.
use mathlib.Core.List.{Mem, mem-append_left, mem-append_right, mem-cons_self}
use mpi_pv.Prelude.{
  ℕ, ◌≤◌, ◌<◌, ◌≡◌, refl, Bool, true, false, inl, inr, Option, none, some, List, [], ◌∷◌, ◌++◌, All,
  All-append, All-append_inv, All-map, ltb, ◌&&◌, leb, if◌then◌else◌, Bool-cases, arith,
}
use mpi_pv.RangeMap.{Range, Tree, leaf, node, find_node}
use mpi_pv.RangeMap.Order.{ranges, Ordered}
use mpi_pv.RangeMap.Descent.{Ordered-append}

module _ {I : Type 0} where
  -- Both ends of a range belong to it.
  abbrev pub covers : ℕ → Range I → Bool
  covers addr r = leb r.low addr && leb addr r.high

  unfoldable pub search_all : ℕ → List (Range I) → Option (Range I)
  search_all addr [] = none
  search_all addr (r ∷ rs) = let rest = search_all addr rs in if covers addr r then some r else rest

  -- The ranges are in order and do not share their ends.
  abbrev pub Separated : List (Range I) → Type 0
  Separated [] = Unit
  Separated (x ∷ xs) = (x.low ≤ x.high) × All (λ y. x.high < y.low) xs × Separated xs

  Separated-append :
      (xs ys : List (Range I))
      → Separated (xs ++ ys)
      → Separated xs × Separated ys × All (λ x. All (λ y. x.high < y.low) ys) xs
  Separated-append [] ys h = (tt, h, tt)
  Separated-append (x ∷ xs) ys h =
      let (a, b, c) = Separated-append xs ys h.2 in
      let (d, e) = All-append_inv (λ y. x.high < y.low) xs ys h.1 in ((h.0, d, a), b, (e, c))

  search_all-missed :
      (addr : ℕ) (xs ys : List (Range I))
      → All (λ x. covers addr x ≡ false) xs
      → search_all addr (xs ++ ys) ≡ search_all addr ys
  unfolding search_all
  search_all-missed addr [] ys h = refl
  search_all-missed addr (x ∷ xs) ys h = rw h.0 (search_all-missed addr xs ys h.1)

  search_all-before :
      (addr : ℕ) (xs ys : List (Range I))
      → All (λ y. covers addr y ≡ false) ys
      → search_all addr (xs ++ ys) ≡ search_all addr xs
  unfolding search_all
  search_all-before addr [] [] h = refl
  search_all-before addr [] (y ∷ ys) h = rw h.0 (search_all-before addr [] ys h.1)
  search_all-before addr (x ∷ xs) ys h = rw (search_all-before addr xs ys h) refl

  -- Where no two ranges share an end, the search down the tree finds what a search through all the
  -- ranges finds.
  pub find_node-search_all :
      (addr : ℕ) (t : Tree I) → Separated (ranges t) → find_node t addr ≡ search_all addr (ranges t)
  unfolding find_node ranges search_all
  find_node-search_all addr leaf h = refl
  find_node-search_all addr (node c r a b) h =
      let (sa, sb, across) = Separated-append (ranges a) (r ∷ ranges b) h in
      elim (Bool-cases (ltb addr r.low)) [
        | inl lt ↦
            let above : All (λ y. covers addr y ≡ false) (r ∷ ranges b) =
              (ground (arith, lt), All-map (λ y k. ground (arith, lt, sb.0, k)) (ranges b) sb.1) in
            rw (lt, search_all-before addr (ranges a) (r ∷ ranges b) above)
              (find_node-search_all addr a sa)
        | inr ge ↦
            let below : All (λ x. covers addr x ≡ false) (ranges a) =
              All-map (λ x k. ground (arith, ge, k.0)) (ranges a) across in
            elim (Bool-cases (ltb r.high addr)) [
              | inl gt ↦
                  let out : covers addr r ≡ false = ground (arith, gt) in
                  rw (ge, gt, search_all-missed addr (ranges a) (r ∷ ranges b) below, out)
                    (find_node-search_all addr b sb.2)
              | inr le ↦
                  let in_r : covers addr r ≡ true = ground (arith, ge, le) in
                  rw (ge, le, search_all-missed addr (ranges a) (r ∷ ranges b) below, in_r) refl
            ]
      ]

  -- What a search may find: a range of the map that the address belongs to, or nothing if there is none.
  abbrev pub Finds : ℕ → List (Range I) → Option (Range I) → Type 0
  Finds addr rs none = All (λ r. covers addr r ≡ false) rs
  Finds addr rs (some r) = Mem r rs × (covers addr r ≡ true)

  Finds-left :
      (addr : ℕ) (xs ys : List (Range I)) (o : Option (Range I))
      → All (λ y. covers addr y ≡ false) ys
      → Finds addr xs o
      → Finds addr (xs ++ ys) o
  Finds-left addr xs ys none h f = All-append (λ y. covers addr y ≡ false) xs ys f h
  Finds-left addr xs ys (some r) h f = (mem-append_left _ f.0, f.1)

  Finds-right :
      (addr : ℕ) (xs ys : List (Range I)) (o : Option (Range I))
      → All (λ y. covers addr y ≡ false) xs
      → Finds addr ys o
      → Finds addr (xs ++ ys) o
  Finds-right addr xs ys none h f = All-append (λ y. covers addr y ≡ false) xs ys h f
  Finds-right addr xs ys (some r) h f = (mem-append_right _ f.0, f.1)

  -- The search down the tree gives a range of the map to which the address belongs, if there is one, also
  -- where two ranges share an end.
  pub find_node-Finds :
      (addr : ℕ) (t : Tree I) → Ordered (ranges t) → Finds addr (ranges t) (find_node t addr)
  unfolding find_node ranges
  find_node-Finds addr leaf h = tt
  find_node-Finds addr (node c r a b) h =
      let (oa, orb, across) = Ordered-append (ranges a) (r ∷ ranges b) h in
      elim (Bool-cases (ltb addr r.low)) [
        | inl lt ↦
            let above : All (λ y. covers addr y ≡ false) (r ∷ ranges b) = (
              ground (arith, lt),
              All-map (λ y k. ground (arith, lt, orb.0, k)) (ranges b) orb.1,
            ) in
            rw lt (
              Finds-left addr (ranges a) (r ∷ ranges b) (find_node a addr) above
                (find_node-Finds addr a oa))
        | inr ge ↦ elim (Bool-cases (ltb r.high addr)) [
          | inl gt ↦
              let out : covers addr r ≡ false = ground (arith, gt) in
              let below : All (λ x. covers addr x ≡ false) (ranges a) =
                All-map (λ x k. ground (arith, gt, orb.0, k.0)) (ranges a) across in
              rw (ge, gt)
                (Finds-right addr (ranges a) (r ∷ ranges b) (find_node b addr) below (
                  Finds-right addr (r ∷ []) (ranges b) (find_node b addr) (out, tt)
                    (find_node-Finds addr b orb.2)))
          | inr le ↦ rw (ge, le) (mem-append_right _ mem-cons_self, ground (arith, ge, le))
        ]
      ]
