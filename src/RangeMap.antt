-- ===== src/RangeMap.antt =====
-- pc_lookup_dwarf.c: the map from ranges of addresses to what is known of them, a red-black tree.
-- A node is reached through the frames that its `parent` pointers lead to, so that a place in the tree
-- is a subtree with its path to the root. `malloc` gives a node.
pub mod Order
pub mod Descent
pub mod Fixup
pub mod Balance
pub mod Find
use mathlib.Core.Option
use mpi_pv.Prelude.{
  ℕ, Bool, true, false, Option, none, some, List, [], ◌∷◌, ltb, leb, if◌then◌else◌,
}
use mpi_pv.Hash.{Run, ok, abort, ◌>>=◌, overlap, failed_assert, null_node}

pub data Color : Type 0 where
  red black : Color

pub record Range (I : Type 0) : Type 0 where
  pub low : ℕ
  pub high : ℕ
  pub info : I

-- `AddrRangeMapNode`; NULL is `leaf`.
pub data Tree (I : Type 0) : Type 0 where
  leaf : Tree I
  node : Color → Range I → Tree I → Tree I → Tree I

-- Which child of its parent a node is.
pub data Side : Type 0 where
  left right : Side

-- The parent of a node, with its other child.
pub data Frame (I : Type 0) : Type 0 where
  frame : Side → Color → Range I → Tree I → Frame I

abbrev pub is_red : {I : Type 0} → Tree I → Bool
is_red leaf = false
is_red (node red r a b) = true
is_red (node black r a b) = false

abbrev pub set_color : {I : Type 0} → Color → Tree I → Tree I
set_color c leaf = leaf
set_color c (node d r a b) = node c r a b

-- `AddrRangeMap_LeftRotate` and `AddrRangeMap_RightRotate` at the root of a subtree
unfoldable pub left_rotate : {I : Type 0} → Tree I → Run (Tree I)
left_rotate leaf = abort failed_assert
left_rotate (node c r a leaf) = abort failed_assert
left_rotate (node c r a (node d s b e)) = ok (node d s (node c r a b) e)

unfoldable pub right_rotate : {I : Type 0} → Tree I → Run (Tree I)
right_rotate leaf = abort failed_assert
right_rotate (node c r leaf b) = abort failed_assert
right_rotate (node c r (node d s a e) b) = ok (node d s a (node c r e b))

module _ {I : Type 0} where
  abbrev pub plug : Tree I → Frame I → Tree I
  plug t (frame left c r o) = node c r t o
  plug t (frame right c r o) = node c r o t

  -- The whole tree around a place
  unfoldable pub zip : Tree I → List (Frame I) → Tree I
  zip t [] = t
  zip t (f ∷ path) = zip (plug t f) path

  -- The loop that looks for the place of a new range
  unfoldable pub descend : Range I → Tree I → List (Frame I) → Run (List (Frame I))
  descend e leaf path = ok path
  descend e (node c r a b) path =
      let below = descend e a (frame left c r b ∷ path) in
      let above = descend e b (frame right c r a ∷ path) in
      if leb e.high r.low then below else if leb r.high e.low then above else abort overlap

  -- The rotations where the uncle is black: the parent, with range `r` and other child `o`, of the
  -- node `t` on side `s` is on side `s'` of the grandparent, which has range `g` and the uncle `u`.
  -- The parent is black afterwards, so the loop ends.
  unfoldable pub rebalance :
      Side → Side → Tree I → Range I → Tree I → Range I → Tree I → Run (Tree I)
  rebalance left left t r o g u = right_rotate (node red g (node black r t o) u)
  rebalance left right t r o g u =
      left_rotate (node red r o t) >>= λ p. right_rotate (node red g (set_color black p) u)
  rebalance right right t r o g u = left_rotate (node red g u (node black r o t))
  rebalance right left t r o g u =
      right_rotate (node red r t o) >>= λ p. left_rotate (node red g u (set_color black p))

  -- The loop that rebalances. A red parent that is the root has no parent to read from.
  unfoldable pub fixup : Tree I → List (Frame I) → Run (Tree I)
  fixup t [] = ok t
  fixup t (frame s black r o ∷ path) = ok (zip t (frame s black r o ∷ path))
  fixup t (frame s red r o ∷ []) = abort null_node
  fixup t (frame s red r o ∷ frame s' c g u ∷ path) =
      let p = plug t (frame s black r o) in
      let up = fixup (plug p (frame s' red g (set_color black u))) path in
      if is_red u then up else rebalance s' s t r o g u >>= λ t'. ok (zip t' path)

  -- `AddrRangeMap_Add`
  unfoldable pub add : Range I → Tree I → Run (Tree I)
  add e t =
      if leb e.low e.high
      then (do
        path ← descend e t []
        t' ← fixup (node red e leaf leaf) path
        ok (set_color black t'))
      else abort failed_assert

  -- `AddrRangeMap_Find`
  unfoldable pub find_node : Tree I → ℕ → Option (Range I)
  find_node leaf addr = none
  find_node (node c r a b) addr =
      let below = find_node a addr in
      let above = find_node b addr in
      if ltb addr r.low then below else if ltb r.high addr then above else some r

  unfoldable pub find_info : Tree I → ℕ → Option I
  find_info t addr = Option.map (λ r. r.info) (find_node t addr)
