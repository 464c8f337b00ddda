-- ===== src/RangeMap/Balance.antt =====
-- pc_lookup_dwarf.c: `AddrRangeMap_Add` as an insertion into the ranges in order, on a balanced tree.
use mathlib.Core.Path.{subst}
use mathlib.Core.List.{append-nil}
use mpi_pv.Prelude.{
  ℕ, zero, suc, ◌+◌, ◌^◌, ◌≤◌, ◌≡◌, refl, sym, ap, ◌∙◌, max, Bool, true, false, inl, inr, List, [],
  ◌∷◌, ◌++◌, All-append, All-append_inv, length, length-append, leb, if◌then◌else◌, Bool-cases,
  arith,
}
use native.Mathlib.Nat.{pow-suc}
use mpi_pv.Hash.{ok, abort, overlap}
use mpi_pv.RangeMap.{
  red, black, Range, Tree, leaf, node, left, right, Frame, frame, is_red, set_color, descend, add,
}
use mpi_pv.RangeMap.Order.{ranges, before, after, Ordered, clashes, inserted, ranges-zip}
use mpi_pv.RangeMap.Descent.{Above, Below, inserted-between, Landing, descend-Landing}
use mpi_pv.RangeMap.Fixup.{RedBlack, UnderBlack, Around, ranges-set_color, fixup-Restored}

module _ {I : Type 0} where
  -- The ranges are in order, every path down has as many black nodes, no red node has a red child, and
  -- the root is black.
  pub record IsMap (t : Tree I) : Type 0 where
    pub ordered : Ordered (ranges t)
    pub blacks : ℕ
    pub colored : RedBlack blacks t
    pub rooted : is_red t ≡ false

  pub leaf-IsMap : IsMap leaf
  unfolding ranges
  leaf-IsMap = record { ordered = tt; blacks = 0; colored = refl; rooted = refl }

  descend-Around :
      (e : Range I) (n : ℕ) (t : Tree I) (path q : List (Frame I))
      → RedBlack n t
      → Around n path
      → (is_red t ≡ true → UnderBlack path)
      → descend e t path ≡ ok q
      → Around 0 q
  unfolding descend
  descend-Around e n leaf path q h a w d =
      let same : path ≡ q = cc in subst (Around 0) same (subst (λ m. Around m path) h a)
  descend-Around e n (node red r x y) path q h a w d = elim (Bool-cases (leb e.high r.low)) [
    | inl c ↦
        descend-Around e n x (frame left red r y ∷ path) q h.0 (h.1, h.3, w refl, a) (λ k. cc)
          (rw c at d)
    | inr c ↦ elim (Bool-cases (leb r.high e.low)) [
      | inl k ↦
          descend-Around e n y (frame right red r x ∷ path) q h.1 (h.0, h.2, w refl, a) (λ k. cc)
            (rw (c, k) at d)
      | inr k ↦ absurd (ground (arith, rw (c, k) at d))
    ]
  ]
  descend-Around e zero (node black r x y) path q h a w d = absurd h
  descend-Around e (suc n) (node black r x y) path q h a w d =
      elim (Bool-cases (leb e.high r.low)) [
        | inl c ↦
            descend-Around e n x (frame left black r y ∷ path) q h.0 (h.1, a) (λ k. tt) (rw c at d)
        | inr c ↦ elim (Bool-cases (leb r.high e.low)) [
          | inl k ↦
              descend-Around e n y (frame right black r x ∷ path) q h.1 (h.0, a) (λ k. tt)
                (rw (c, k) at d)
          | inr k ↦ absurd (ground (arith, rw (c, k) at d))
        ]
      ]

  Ordered-between :
      (e : Range I) (xs ys : List (Range I))
      → Ordered (xs ++ ys)
      → Above e xs
      → Below e ys
      → e.low ≤ e.high
      → Ordered (xs ++ (e ∷ ys))
  Ordered-between e [] ys o a b le = (le, b, o)
  Ordered-between e (x ∷ xs) ys o a b le =
      let (h, k) = All-append_inv (λ y. x.high ≤ y.low) xs ys o.1 in
      (
        o.0,
        All-append (λ y. x.high ≤ y.low) xs (e ∷ ys) h (a.0.0, k),
        Ordered-between e xs ys o.2 a.1 b le,
      )

  blackened : (t : Tree I) → is_red (set_color black t) ≡ false
  blackened leaf = refl
  blackened (node c r a b) = refl

  -- What adding a range does, with or without an overlap.
  abbrev pub Added : Range I → Tree I → Bool → Type 0
  Added e t true = add e t ≡ abort overlap
  Added e t false =
      (t' : Tree I) × (add e t ≡ ok t') × IsMap t' × (ranges t' ≡ inserted e (ranges t))

  -- A range that does not overlap any other is added: the loops end without an access through NULL, the
  -- ranges from left to right are the ones before with the new one in its place, and the tree is again in
  -- order and red-black. A range that overlaps another one is refused.
  pub add-Added :
      (e : Range I) (t : Tree I) → IsMap t → e.low ≤ e.high → Added e t (clashes e (ranges t))
  unfolding add
  add-Added e t m le =
      from (clashes e (ranges t))
        (descend-Landing e t [] m.ordered (unfold before in tt) (unfold after in tt))
    where
      sound : leb e.low e.high ≡ true
      sound = ground arith

      from :
          (b : Bool)
          → Landing e b (descend e t []) (before [] ++ (ranges t ++ after []))
          → Added e t b
      from true d = rw (sound, d) refl
      from false (q, d, same, up, down) =
          let (t', f, r, s) =
            fixup-Restored 0 e leaf leaf q (refl, refl, refl, refl)
              (descend-Around e m.blacks t [] q m.colored tt (λ k. cc) d) in
          let all : before q ++ after q ≡ ranges t =
            same ∙ unfold before in (unfold after in append-nil (ranges t)) in
          let put : ranges (set_color black t') ≡ before q ++ (e ∷ after q) =
            ranges-set_color t'
            ∙ s
            ∙ ranges-zip q (node red e leaf leaf)
            ∙ (unfold ranges in refl) in
          (
            set_color black t',
            rw (sound, d, f) refl,
            record {
              ordered = subst Ordered (sym put) (
                  Ordered-between e (before q) (after q) (subst Ordered (sym all) m.ordered) up down
                    le);
              blacks = r.0;
              colored = r.1;
              rooted = blackened t';
            },
            put ∙ sym (inserted-between e (before q) (after q) up down) ∙ ap (inserted e) all,
          )

  -- The number of nodes on the longest path down, which bounds the rounds of a search.
  abbrev pub depth : Tree I → ℕ
  depth leaf = 0
  depth (node c r a b) = 1 + max (depth a) (depth b)

  shallow :
      (n : ℕ) (t : Tree I)
      → RedBlack n t
      → (depth t ≤ n + n + (if is_red t then 1 else 0)) × (2 ^ n ≤ length (ranges t) + 1)
  unfolding ranges
  shallow n leaf h = rw h (omega arith, omega arith)
  shallow n (node red r a b) h =
      let (da, sa) = shallow n a h.0 in
      let (db, sb) = shallow n b h.1 in
      (ground (arith, da, db, h.2, h.3), omega (arith, sa, length-append (ranges a) (r ∷ ranges b)))
  shallow zero (node black r a b) h = absurd h
  shallow (suc n) (node black r a b) h =
      let (da, sa) = shallow n a h.0 in
      let (db, sb) = shallow n b h.1 in
      (
        ground (arith, da, db),
        omega (arith, sa, sb, length-append (ranges a) (r ∷ ranges b), pow-suc 2 n),
      )

  -- A map with `m` ranges has no path down of more than twice the binary logarithm of `m + 1` nodes.
  pub depth-logarithm :
      (t : Tree I) → IsMap t → (n : ℕ) × (depth t ≤ n + n) × (2 ^ n ≤ length (ranges t) + 1)
  depth-logarithm t m =
      let (d, s) = shallow m.blacks t m.colored in (m.blacks, ground (arith, d, m.rooted), s)
