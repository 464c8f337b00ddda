-- ===== src/Dwarf.antt =====
-- pc_lookup_dwarf.c: `mpiP_find_src_loc` on the line numbers and functions of the executable. What
-- libdwarf reads from the executable is an argument; `malloc` and `strdup` succeed.
pub mod Patch
pub mod Lines
pub mod Nearest
pub mod Depth
use mpi_pv.Prelude.{
  ℕ, ◌+◌, ◌-◌, ◌%◌, ◌^◌, Bool, true, false, not, Option, none, some, List, [], ◌∷◌, ◌==◌, Ordering,
  if◌then◌else◌,
}
use mpi_pv.Hash.{Run, ok, abort, ◌>>=◌, failed_assert, dwarf_failure}
use mpi_pv.Callsite.{Text}
use mpi_pv.Options.{after_last_slash}
use mpi_pv.Sources.{Location, strcmp, question_marks}
use mpi_pv.RangeMap.{Range, Tree, leaf, node, add, find_info}

-- `UniqueFileName_Get` on the list of the names so far, newest first
unfoldable pub known_name : Text → List Text → Option Text
known_name name [] = none
known_name name (x ∷ xs) =
    let rest = known_name name xs in
    elim (strcmp name x) [ Ordering.eq ↦ some x | Ordering.lt ↦ rest | Ordering.gt ↦ rest ]

unfoldable pub unique_file_name : Text → List Text → List Text × Text
unique_file_name name names = elim (known_name name names) [
  | some x ↦ (names, x)
  | none ↦ (name ∷ names, name)
]

-- `AddrToSourceInfo`
pub record SourceInfo : Type 0 where
  pub file_name : Text
  pub line_number : ℕ

-- The unique file names and the two maps
pub record Executable : Type 0 where
  pub names : List Text
  pub lines : Tree SourceInfo
  pub functions : Tree Text

-- `AddrToSourceMap_Add`; the end of the range is patched later.
unfoldable pub add_source : ℕ → Text → ℕ → Executable → Run Executable
add_source addr file number x =
    let (names, name) = unique_file_name file x.names in
    add
      (record { low = addr; high = addr; info = record { file_name = name; line_number = number } })
      x.lines
    >>= λ t. ok (record x { names = names; lines = t })

-- `FunctionMap_Add`
unfoldable pub add_function : Text → ℕ → ℕ → Executable → Run Executable
add_function name low high x =
    add (record { low = low; high = high; info = name }) x.functions >>= λ t.
    ok (record x { functions = t })

-- `maxAddress - 1` of a `Dwarf_Addr`
unfoldable pub minus_one : ℕ → ℕ
minus_one a = (a + (2 ^ 64 - 1)) % 2 ^ 64

-- `AddrToSourceMap_PatchRangesAux` of a subtree that is not empty, with the lowest address of the subtree;
-- for an empty one it is not called.
unfoldable pub patch_ranges_aux : {I : Type 0} → Tree I → ℕ → Tree I × ℕ
patch_ranges_aux leaf max_address = (leaf, max_address)
patch_ranges_aux (node c r a b) max_address =
    let (a', least) = patch_ranges_aux a r.low in
    let (b', next) = patch_ranges_aux b max_address in
    (node c (record r { high = minus_one next }) a' b', least)

-- `AddrToSourceMap_PatchRanges`, from `~(Dwarf_Addr) 0`
unfoldable pub patch_ranges : {I : Type 0} → Tree I → Tree I
patch_ranges t = (patch_ranges_aux t (2 ^ 64 - 1)).0

-- What `dwarf_lineno`, `dwarf_lineaddr` and `dwarf_linesrc` give of an entry
pub record LineEntry : Type 0 where
  pub number : Option ℕ
  pub address : Option ℕ
  pub source : Option Text

-- Whether an entry of this address is saved: the next one, if there is one, has another address.
unfoldable pub is_saved : ℕ → List LineEntry → Run Bool
is_saved addr [] = ok true
is_saved addr (next ∷ rest) = elim next.address [
  | none ↦ abort failed_assert
  | some next_addr ↦ ok (not (next_addr == addr))
]

unfoldable pub add_line : LineEntry → List LineEntry → Executable → Run Executable
add_line l rest x = elim l.number [
  | none ↦ ok x
  | some number ↦ elim l.address [
    | none ↦ ok x
    | some addr ↦ elim l.source [
      | none ↦ ok x
      | some file ↦
          (is_saved addr rest >>= λ saved. if saved then add_source addr file number x else ok x)
    ]
  ]
]

unfoldable pub add_lines : List LineEntry → Executable → Run Executable
add_lines [] x = ok x
add_lines (l ∷ rest) x = add_line l rest x >>= add_lines rest

-- A child of a compilation unit, with whether its tag is that of a function.
pub record Die : Type 0 where
  pub is_function : Bool
  pub name : Option Text
  pub low : Option ℕ
  pub high : Option ℕ

-- `HandleFunctionDIE`
unfoldable pub handle_function : Die → Executable → Run Executable
handle_function d x = elim d.name [
  | none ↦ ok x
  | some name ↦ elim d.low [
    | none ↦ ok x
    | some low ↦ elim d.high [ none ↦ ok x | some high ↦ add_function name low high x ]
  ]
]

unfoldable pub add_children : List Die → Executable → Run Executable
add_children [] x = ok x
add_children (d ∷ ds) x = (if d.is_function then handle_function d x else ok x) >>= add_children ds

-- A compilation unit: its line numbers, if it has them, and its children.
pub record CompileUnit : Type 0 where
  pub entries : Option (List LineEntry)
  pub children : List Die

unfoldable pub add_unit : CompileUnit → Executable → Run Executable
add_unit u x = (elim u.entries [ none ↦ ok x | some ls ↦ add_lines ls x ]) >>= λ y.
    elim u.children [ [] ↦ abort dwarf_failure | d ∷ ds ↦ add_children (d ∷ ds) y ]

unfoldable pub add_units : List CompileUnit → Executable → Run Executable
add_units [] x = ok x
add_units (u ∷ us) x = add_unit u x >>= add_units us

-- `open_dwarf_executable` once the file is open
unfoldable pub open_executable : List Text → List CompileUnit → Run Executable
open_executable names us =
    add_units us (record { names = names; lines = leaf; functions = leaf }) >>= λ x.
    ok (record x { lines = patch_ranges x.lines })

abbrev base_name : Text → Text
base_name file = elim (after_last_slash file) [ none ↦ file | some rest ↦ rest ]

-- `mpiP_find_src_loc`; it returns 1 for `none`.
unfoldable pub find_src_loc : Bool → Executable → ℕ → Option Location
find_src_loc base_names x addr = elim (find_info x.lines addr) [
  | some s ↦ some (record {
    filename = some (if base_names then s.file_name else base_name s.file_name);
    functname = find_info x.functions addr;
    lineno = s.line_number;
  })
  | none ↦ elim (find_info x.functions addr) [
    | none ↦ none
    | some f ↦ some (record { filename = some question_marks; functname = some f; lineno = 0 })
  ]
]
