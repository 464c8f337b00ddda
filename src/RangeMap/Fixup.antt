-- ===== src/RangeMap/Fixup.antt =====
-- pc_lookup_dwarf.c: the loop that rebalances restores a red-black tree, without an access through NULL.
use mathlib.Core.Path.{subst}
use mathlib.Core.List.{append_assoc}
use mpi_pv.Prelude.{
  ℕ, zero, suc, ◌≡◌, refl, sym, ap, ◌∙◌, true, false, inl, inr, List, [], ◌∷◌, ◌++◌, Bool-cases,
}
use mpi_pv.Hash.{Run, ok}
use mpi_pv.RangeMap.{
  red, black, Range, Tree, leaf, node, left, right, Frame, frame, is_red, set_color, zip,
  left_rotate, right_rotate, rebalance, fixup,
}
use mpi_pv.RangeMap.Order.{ranges, before, after, ranges-zip}

module _ {I : Type 0} where
  -- Every path down has `n` black nodes, and no red node has a red child.
  abbrev pub RedBlack : ℕ → Tree I → Type 0
  RedBlack n leaf = n ≡ 0
  RedBlack n (node red r a b) =
      RedBlack n a × RedBlack n b × (is_red a ≡ false) × (is_red b ≡ false)
  RedBlack zero (node black r a b) = ⊥
  RedBlack (suc n) (node black r a b) = RedBlack n a × RedBlack n b

  -- The parent is there and black.
  abbrev pub UnderBlack : List (Frame I) → Type 0
  UnderBlack [] = ⊥
  UnderBlack (frame s red r o ∷ path) = ⊥
  UnderBlack (frame s black r o ∷ path) = Unit

  -- What is around a place with `n` black nodes on the paths down from it; the root is black.
  abbrev pub Around : ℕ → List (Frame I) → Type 0
  Around n [] = Unit
  Around n (frame s red r o ∷ path) =
      RedBlack n o × (is_red o ≡ false) × UnderBlack path × Around n path
  Around n (frame s black r o ∷ path) = RedBlack n o × Around (suc n) path

  -- A red-black tree, once its root is black.
  abbrev pub Rooted : Tree I → Type 0
  Rooted t = (n : ℕ) × RedBlack n (set_color black t)

  pub zip-Rooted :
      (n : ℕ) (t : Tree I) (path : List (Frame I))
      → RedBlack n t
      → is_red t ≡ false
      → Around n path
      → Rooted (zip t path)
  unfolding zip
  zip-Rooted n leaf [] h w a = (n, h)
  zip-Rooted n (node red r x y) [] h w a = (suc n, (h.0, h.1))
  zip-Rooted n (node black r x y) [] h w a = (n, h)
  zip-Rooted n t (frame left black r o ∷ path) h w a =
      zip-Rooted (suc n) (node black r t o) path (h, a.0) refl a.1
  zip-Rooted n t (frame right black r o ∷ path) h w a =
      zip-Rooted (suc n) (node black r o t) path (a.0, h) refl a.1
  zip-Rooted n t (frame left red r o ∷ frame left black g u ∷ path) h w a =
      zip-Rooted (suc n) (node black g (node red r t o) u) path ((h, a.0, w, a.1), a.3.0) refl a.3.1
  zip-Rooted n t (frame left red r o ∷ frame right black g u ∷ path) h w a =
      zip-Rooted (suc n) (node black g u (node red r t o)) path (a.3.0, (h, a.0, w, a.1)) refl a.3.1
  zip-Rooted n t (frame right red r o ∷ frame left black g u ∷ path) h w a =
      zip-Rooted (suc n) (node black g (node red r o t) u) path ((a.0, h, a.1, w), a.3.0) refl a.3.1
  zip-Rooted n t (frame right red r o ∷ frame right black g u ∷ path) h w a =
      zip-Rooted (suc n) (node black g u (node red r o t)) path (a.3.0, (a.0, h, a.1, w)) refl a.3.1
  zip-Rooted n t (frame left red r o ∷ frame s red g u ∷ path) h w a = absurd a.2
  zip-Rooted n t (frame right red r o ∷ frame s red g u ∷ path) h w a = absurd a.2
  zip-Rooted n t (frame left red r o ∷ []) h w a = absurd a.2
  zip-Rooted n t (frame right red r o ∷ []) h w a = absurd a.2

  ranges-zip_cong :
      (t t' : Tree I) (path : List (Frame I))
      → ranges t ≡ ranges t'
      → ranges (zip t path) ≡ ranges (zip t' path)
  ranges-zip_cong t t' path e =
      ranges-zip path t ∙ ap (λ l. before path ++ (l ++ after path)) e ∙ sym (ranges-zip path t')

  pub ranges-set_color : (t : Tree I) → ranges (set_color black t) ≡ ranges t
  unfolding ranges
  ranges-set_color leaf = refl
  ranges-set_color (node c r a b) = refl

  RedBlack-blackened :
      (n : ℕ) (t : Tree I) → is_red t ≡ true → RedBlack n t → RedBlack (suc n) (set_color black t)
  RedBlack-blackened n leaf e h = cc
  RedBlack-blackened n (node red r a b) e h = (h.0, h.1)
  RedBlack-blackened n (node black r a b) e h = cc

  -- The loop ends, with a red-black tree that has the same ranges.
  abbrev pub Restored : Run (Tree I) → List (Range I) → Type 0
  Restored out all = (t : Tree I) × (out ≡ ok t) × Rooted t × (ranges t ≡ all)

  -- The grandparent becomes red, with two black children.
  rises :
      (n : ℕ) (g : Range I) (p u : Tree I)
      → RedBlack (suc n) p
      → is_red p ≡ false
      → is_red u ≡ true
      → RedBlack n u
      → RedBlack (suc n) (node red g p (set_color black u))
        × RedBlack (suc n) (node red g (set_color black u) p)
  rises n g p leaf hp wp e h = cc
  rises n g p (node black r a b) hp wp e h = cc
  rises n g p (node red r a b) hp wp e h = ((hp, (h.0, h.1), wp, refl), ((h.0, h.1), hp, refl, wp))

  ends :
      (n : ℕ) (sub whole : Tree I) (path : List (Frame I))
      → RedBlack (suc n) sub
      → is_red sub ≡ false
      → Around (suc n) path
      → ranges sub ≡ ranges whole
      → Restored (ok (zip sub path)) (ranges (zip whole path))
  ends n sub whole path h w a e =
      (zip sub path, refl, zip-Rooted (suc n) sub path h w a, ranges-zip_cong sub whole path e)

  pub fixup-Restored :
      (n : ℕ) (r : Range I) (x y : Tree I) (path : List (Frame I))
      → RedBlack n (node red r x y)
      → Around n path
      → Restored (fixup (node red r x y) path) (ranges (zip (node red r x y) path))
  unfolding fixup zip ranges rebalance left_rotate right_rotate
  fixup-Restored n r x y [] h a = (node red r x y, refl, (suc n, (h.0, h.1)), refl)
  fixup-Restored n r x y (frame left black q o ∷ path) h a =
      ends n (node black q (node red r x y) o) _ path (h, a.0) refl a.1 refl
  fixup-Restored n r x y (frame right black q o ∷ path) h a =
      ends n (node black q o (node red r x y)) _ path (a.0, h) refl a.1 refl
  fixup-Restored n r x y (frame s red q o ∷ []) h a = absurd a.2
  fixup-Restored n r x y (frame s red q o ∷ frame s' red g u ∷ path) h a = absurd a.2
  fixup-Restored n r x y (frame left red q o ∷ frame left black g u ∷ path) h a =
      elim (Bool-cases (is_red u)) [
        | inl e ↦ rw e (
            subst
              (Restored
                (fixup (node red g (node black q (node red r x y) o) (set_color black u)) path))
              (ranges-zip_cong (node red g (node black q (node red r x y) o) (set_color black u))
                (node black g (node red q (node red r x y) o) u) path
                (rw (ranges-set_color u) refl))
              (fixup-Restored (suc n) g (node black q (node red r x y) o) (set_color black u) path
                (rises n g (node black q (node red r x y) o) u (h, a.0) refl e a.3.0).0 a.3.1))
        | inr e ↦ rw e (
            ends n (node black q (node red r x y) (node red g o u))
              (node black g (node red q (node red r x y) o) u) path (h, (a.0, a.3.0, a.1, e)) refl
              a.3.1 (simp append_assoc))
      ]
  fixup-Restored n r x y (frame right red q o ∷ frame left black g u ∷ path) h a =
      elim (Bool-cases (is_red u)) [
        | inl e ↦ rw e (
            subst
              (Restored
                (fixup (node red g (node black q o (node red r x y)) (set_color black u)) path))
              (ranges-zip_cong (node red g (node black q o (node red r x y)) (set_color black u))
                (node black g (node red q o (node red r x y)) u) path
                (rw (ranges-set_color u) refl))
              (fixup-Restored (suc n) g (node black q o (node red r x y)) (set_color black u) path
                (rises n g (node black q o (node red r x y)) u (a.0, h) refl e a.3.0).0 a.3.1))
        | inr e ↦ rw e (
            ends n (node black r (node red q o x) (node red g y u))
              (node black g (node red q o (node red r x y)) u) path
              ((a.0, h.0, a.1, h.2), (h.1, a.3.0, h.3, e)) refl a.3.1 (simp append_assoc))
      ]
  fixup-Restored n r x y (frame left red q o ∷ frame right black g u ∷ path) h a =
      elim (Bool-cases (is_red u)) [
        | inl e ↦ rw e (
            subst
              (Restored
                (fixup (node red g (set_color black u) (node black q (node red r x y) o)) path))
              (ranges-zip_cong (node red g (set_color black u) (node black q (node red r x y) o))
                (node black g u (node red q (node red r x y) o)) path
                (rw (ranges-set_color u) refl))
              (fixup-Restored (suc n) g (set_color black u) (node black q (node red r x y) o) path
                (rises n g (node black q (node red r x y) o) u (h, a.0) refl e a.3.0).1 a.3.1))
        | inr e ↦ rw e (
            ends n (node black r (node red g u x) (node red q y o))
              (node black g u (node red q (node red r x y) o)) path
              ((a.3.0, h.0, e, h.2), (h.1, a.0, h.3, a.1)) refl a.3.1 (simp append_assoc))
      ]
  fixup-Restored n r x y (frame right red q o ∷ frame right black g u ∷ path) h a =
      elim (Bool-cases (is_red u)) [
        | inl e ↦ rw e (
            subst
              (Restored
                (fixup (node red g (set_color black u) (node black q o (node red r x y))) path))
              (ranges-zip_cong (node red g (set_color black u) (node black q o (node red r x y)))
                (node black g u (node red q o (node red r x y))) path
                (rw (ranges-set_color u) refl))
              (fixup-Restored (suc n) g (set_color black u) (node black q o (node red r x y)) path
                (rises n g (node black q o (node red r x y)) u (a.0, h) refl e a.3.0).1 a.3.1))
        | inr e ↦ rw e (
            ends n (node black q (node red g u o) (node red r x y))
              (node black g u (node red q o (node red r x y))) path ((a.3.0, a.0, e, a.1), h) refl
              a.3.1 (simp append_assoc))
      ]
