-- ===== src/RangeMap/Order.antt =====
-- pc_lookup_dwarf.c: the ranges of a tree from left to right, which the operations keep in order.
use mathlib.Core.List.{append_assoc, append-nil}
use mpi_pv.Prelude.{
  ◌≤◌, ◌≡◌, sym, ap, ◌∙◌, Bool, false, List, [], ◌∷◌, ◌++◌, All, ltb, leb, ◌&&◌, ◌||◌,
  if◌then◌else◌,
}
use mpi_pv.RangeMap.{Range, Tree, leaf, node, left, right, Frame, frame, zip}

module _ {I : Type 0} where
  unfoldable pub ranges : Tree I → List (Range I)
  ranges leaf = []
  ranges (node c r a b) = ranges a ++ r ∷ ranges b

  -- The ranges to the left and to the right of a place
  unfoldable pub before : List (Frame I) → List (Range I)
  before [] = []
  before (frame left c r o ∷ path) = before path
  before (frame right c r o ∷ path) = before path ++ (ranges o ++ r ∷ [])

  unfoldable pub after : List (Frame I) → List (Range I)
  after [] = []
  after (frame left c r o ∷ path) = r ∷ (ranges o ++ after path)
  after (frame right c r o ∷ path) = after path

  -- Each range is one, and the ranges follow one another; two may share an end.
  abbrev pub Ordered : List (Range I) → Type 0
  Ordered [] = Unit
  Ordered (x ∷ xs) = (x.low ≤ x.high) × All (λ y. x.high ≤ y.low) xs × Ordered xs

  abbrev pub overlaps : Range I → Range I → Bool
  overlaps e r = ltb r.low e.high && ltb e.low r.high

  -- An overlap with one of the ranges
  abbrev pub clashes : Range I → List (Range I) → Bool
  clashes e [] = false
  clashes e (x ∷ xs) = overlaps e x || clashes e xs

  -- What adding a range is to do.
  unfoldable pub inserted : Range I → List (Range I) → List (Range I)
  inserted e [] = e ∷ []
  inserted e (x ∷ xs) = if leb e.high x.low then e ∷ x ∷ xs else x ∷ inserted e xs

  pub ranges-zip :
      (path : List (Frame I)) (t : Tree I)
      → ranges (zip t path) ≡ before path ++ (ranges t ++ after path)
  unfolding ranges zip before after
  ranges-zip [] t = sym (append-nil (ranges t))
  ranges-zip (frame left c r o ∷ path) t =
      ranges-zip path (node c r t o)
      ∙ ap (λ l. before path ++ l) (append_assoc (ranges t) (r ∷ ranges o) (after path))
  ranges-zip (frame right c r o ∷ path) t = rw (ranges-zip path (node c r o t)) (simp append_assoc)
