-- ===== src/Tests/DwarfRuns.antt =====
-- pc_lookup_dwarf.c: four lines, and two functions that follow one another.
use mpi_pv.Prelude.{ℕ, ◌+◌, ◌^◌, ◌≤◌, ◌≡◌, refl, some, List, [], ◌∷◌, map, length, arith}
use mpi_pv.Hash.{ok, abort, overlap, ◌>>=◌}
use mpi_pv.Options.{after_last_slash}
use mpi_pv.Sources.{strcmp}
use mpi_pv.RangeMap.{
  Range, Tree, leaf, left_rotate, right_rotate, zip, descend, rebalance, fixup, add, find_node,
  find_info,
}
use mpi_pv.RangeMap.Order.{ranges, clashes}
use mpi_pv.RangeMap.Balance.{IsMap, leaf-IsMap, Added, add-Added, depth}
use mpi_pv.Dwarf.Depth.{add_lines-depth}
use mpi_pv.RangeMap.Find.{Finds, find_node-Finds}
use mpi_pv.Dwarf.{
  Executable, add_lines, patch_ranges, minus_one, patch_ranges_aux, open_executable, add_units,
  add_unit, add_children, handle_function, add_function, add_line, is_saved, add_source,
  unique_file_name, known_name, find_src_loc,
}
use mpi_pv.Dwarf.Lines.{Saved, as_point}
use mpi_pv.Dwarf.Nearest.{no_lines, entry_of, saved, Nearest, add_lines-Nearest}

program : Unit {0}
unfolding left_rotate right_rotate zip descend rebalance fixup add find_node find_info ranges
    patch_ranges minus_one patch_ranges_aux open_executable add_units add_unit add_children
    handle_function add_function add_lines add_line is_saved add_source unique_file_name known_name
    find_src_loc saved strcmp after_last_slash
program = tt

abbrev range : ℕ → ℕ → Range ℕ
range low high = record { low = low; high = high; info = low }

add-Added_example : Added (range 10 20) leaf (clashes (range 10 20) (ranges leaf))
add-Added_example = add-Added (range 10 20) leaf leaf-IsMap (omega arith)

-- The tree with one range
one : (t : Tree ℕ) × (add (range 10 20) leaf ≡ ok t) × IsMap t
unfolding ranges
one = let (t, e, m, r) = add-Added_example in (t, e, m)

find_node-Finds_example : Finds 20 (ranges one.0) (find_node one.0 20)
find_node-Finds_example = find_node-Finds 20 one.0 one.2.ordered

abbrev lines : List Saved
lines = (64, 0x61 ∷ [], 3) ∷ (80, 0x61 ∷ [], 4) ∷ (80, 0x61 ∷ [], 5) ∷ (16, 0x62 ∷ [], 1) ∷ []

add_lines-Nearest_example :
    (x : Executable) × (add_lines (map entry_of lines) no_lines ≡ ok x)
    × Nearest 70 (map as_point (saved lines)) (find_info (patch_ranges x.lines) 70)
unfolding saved
add_lines-Nearest_example =
    add_lines-Nearest lines 70 ((ground arith, (ground arith, tt)), ((ground arith, tt), (tt, tt)))
      (omega arith, (omega arith, (omega arith, tt))) (omega arith)

add_lines-depth_example :
    (x : Executable) × (add_lines (map entry_of lines) no_lines ≡ ok x)
    × (length (ranges x.lines) ≡ length (saved lines))
    × ((n : ℕ) × (depth (patch_ranges x.lines) ≤ n + n) × (2 ^ n ≤ length (saved lines) + 1))
add_lines-depth_example = add_lines-depth lines

-- The first address of the second function belongs to the function that was added first.
shared_end :
    ((add (range 10 20) leaf >>= λ t. add (range 20 30) t >>= λ u. ok (find_info u 20))
      ≡ ok (some 10))
    × ((add (range 20 30) leaf >>= λ t. add (range 10 20) t >>= λ u. ok (find_info u 20))
        ≡ ok (some 20))
    × ((add (range 10 20) leaf >>= λ t. add (range 15 30) t) ≡ abort overlap)
unfolding program
shared_end = (refl, refl, refl)
