-- ===== src/Dwarf/Depth.antt =====
-- pc_lookup_dwarf.c: how deep the map of lines gets.
use mathlib.Core.Path.{subst}
use mpi_pv.Prelude.{
  ℕ, suc, ◌+◌, ◌-◌, ◌^◌, ◌≤◌, ◌≡◌, refl, sym, ap, ◌∙◌, inl, inr, List, [], ◌∷◌, map, length, leb,
  Bool-cases, arith,
}
use mpi_pv.Hash.{ok}
use mpi_pv.RangeMap.{Range, Tree, leaf, node}
use mpi_pv.RangeMap.Order.{ranges, inserted}
use mpi_pv.RangeMap.Balance.{IsMap, leaf-IsMap, depth, depth-logarithm}
use mpi_pv.Dwarf.{Executable, add_lines, patch_ranges_aux, patch_ranges}
use mpi_pv.Dwarf.Lines.{Saved, Points, point, add_sources, add_source-inserted, All-inserted}
use mpi_pv.Dwarf.Nearest.{entry_of, saved, add_lines-saved, no_lines}

length-inserted :
    {A : Type 0} (e : Range A) (rs : List (Range A)) → length (inserted e rs) ≡ suc (length rs)
unfolding inserted
length-inserted e [] = refl
length-inserted e (r ∷ rs) = elim (Bool-cases (leb e.high r.low)) [
  | inl c ↦ rw c refl
  | inr c ↦ rw c (ap suc (length-inserted e rs))
]

-- Every line is added, and the map grows by one range each.
add_sources-length :
    (es : List Saved) (x : Executable)
    → IsMap x.lines
    → Points (ranges x.lines)
    → (y : Executable) × (add_sources es x ≡ ok y)
      × IsMap y.lines
      × (length (ranges y.lines) ≡ length es + length (ranges x.lines))
add_sources-length [] x m p = (x, refl, m, omega arith)
add_sources-length ((addr, file, number) ∷ es) x m p =
    let e = point addr file number in
    let (y, g, m', s) = add_source-inserted addr file number x m p in
    let (z, g', m'', n) =
      add_sources-length es y m'
        (subst Points (sym s) (All-inserted (λ r. r.low ≡ r.high) e (ranges x.lines) p refl)) in
    (z, rw (g, g') refl, m'', omega (arith, n, ap length s, length-inserted e (ranges x.lines)))

depth-patch_ranges_aux :
    {I : Type 0} (t : Tree I) (m : ℕ) → depth (patch_ranges_aux t m).0 ≡ depth t
unfolding patch_ranges_aux
depth-patch_ranges_aux leaf m = refl
depth-patch_ranges_aux (node c r a b) m =
    omega (arith, depth-patch_ranges_aux a r.low, depth-patch_ranges_aux b m)

-- Whatever the lines of a compilation unit are, in whatever order they come and with addresses that come
-- again: all that are saved are added to an empty map without an error, and then no path down the
-- map, with its ranges patched, has more than twice the binary logarithm of one more than their number.
pub add_lines-depth :
    (es : List Saved)
    → (x : Executable) × (add_lines (map entry_of es) no_lines ≡ ok x)
      × (length (ranges x.lines) ≡ length (saved es))
      × ((n : ℕ) × (depth (patch_ranges x.lines) ≤ n + n) × (2 ^ n ≤ length (saved es) + 1))
unfolding patch_ranges
add_lines-depth es =
    let (x, g, m, size) = add_sources-length (saved es) no_lines leaf-IsMap (unfold ranges in tt) in
    let none_yet : length (ranges no_lines.lines) ≡ 0 = unfold ranges in refl in
    let (n, d, s) = depth-logarithm x.lines m in
    (
      x,
      add_lines-saved es no_lines ∙ g,
      omega (arith, size, none_yet),
      (n, rw (depth-patch_ranges_aux x.lines (2 ^ 64 - 1)) d, omega (arith, s, size, none_yet)),
    )
