-- ===== src/Dwarf/Nearest.antt =====
-- pc_lookup_dwarf.c: the line numbers of a compilation unit, from what libdwarf gives to a search.
use mathlib.Core.Path.{subst, fun_ext}
use mathlib.Core.List.{Perm, Mem, mem-cons_self, mem-cons_of_mem, mem-cons, not-mem-nil, append-nil}
use mathlib.Core.Logic.Or
use native.Mathlib.Bridge.{le_prop}
use mathlib.Core.List.Perm
use mpi_pv.Prelude.{
  ℕ, ◌-◌, ◌^◌, ◌≤◌, ◌<◌, ◌≡◌, ◌≢◌, refl, sym, ap, ◌∙◌, inl, inr, Option, none, some, List, [], ◌∷◌,
  ◌++◌, map, All, All-mem, leb, leb→le, if◌then◌else◌, ◌==◌, Bool-cases, Option-cases, arith,
}
use mpi_pv.Hash.{ok, ◌>>=◌}
use mpi_pv.RangeMap.{Range, leaf, find_info}
use mpi_pv.RangeMap.Order.{ranges}
use mpi_pv.RangeMap.Balance.{leaf-IsMap}
use mpi_pv.Dwarf.{
  SourceInfo, Executable, LineEntry, is_saved, add_line, add_lines, add_source, patch_ranges,
}
use mpi_pv.Dwarf.Lines.{Saved, add_sources, as_point, Distinct, add_sources-IsLines}
use mpi_pv.Dwarf.Patch.{Rising, nearest, find_info-patched}

-- The entry of a line of which libdwarf gives everything.
abbrev pub entry_of : Saved → LineEntry
entry_of (addr, file, number) = record {
  number = some number;
  address = some addr;
  source = some file;
}

-- Of the entries of one address that follow one another the last.
unfoldable pub saved : List Saved → List Saved
saved [] = []
saved (e ∷ []) = e ∷ []
saved (e ∷ d ∷ es) = let rest = saved (d ∷ es) in if d.0 == e.0 then rest else e ∷ rest

pub add_lines-saved :
    (es : List Saved) (x : Executable) → add_lines (map entry_of es) x ≡ add_sources (saved es) x
unfolding add_lines add_line is_saved saved
add_lines-saved [] x = refl
add_lines-saved ((addr, file, number) ∷ []) x = refl
add_lines-saved ((addr, file, number) ∷ d ∷ es) x = elim (Bool-cases (d.0 == addr)) [
  | inl e ↦ rw e (add_lines-saved (d ∷ es) x)
  | inr e ↦
      rw e (ap (λ f. add_source addr file number x >>= f) (fun_ext λ y. add_lines-saved (d ∷ es) y))
]

-- What a search is to find: what is known of the greatest address at or below the one that is looked for.
abbrev pub Nearest : ℕ → List (Range SourceInfo) → Option SourceInfo → Type 0
Nearest addr rs none = (r : Range SourceInfo) → Mem r rs → addr < r.low
Nearest addr rs (some i) =
    (r : Range SourceInfo) × Mem r rs
    × (r.info ≡ i)
    × (r.low ≤ addr)
    × ((q : Range SourceInfo) → Mem q rs → q.low ≤ addr → q.low ≤ r.low)

nearest-Nearest :
    (addr : ℕ) (rs : List (Range SourceInfo)) → Rising rs → Nearest addr rs (nearest addr rs)
unfolding nearest
nearest-Nearest addr [] h = λ r m. absurd (not-mem-nil m)
nearest-Nearest addr (x ∷ xs) h =
    let ih = nearest-Nearest addr xs h.1 in
    elim (Option-cases (nearest addr xs)) [
      | inl e ↦
          let above : (r : Range SourceInfo) → Mem r xs → addr < r.low =
            subst (Nearest addr xs) e ih in
          elim (Bool-cases (leb x.low addr)) [
            | inl c ↦
                rw (e, c)
                  (
                    x,
                    mem-cons_self,
                    refl,
                    leb→le x.low addr c,
                    λ q m k.
                        Or.elim le_prop (mem-cons.0 m)
                          (λ s. subst (λ y. y.low ≤ x.low) (sym s) (omega arith))
                          (λ n. absurd (omega (arith, above q n, k))),
                  )
            | inr c ↦
                rw (e, c)
                  (λ r m.
                    Or.elim le_prop (mem-cons.0 m)
                      (λ s. subst (λ y. addr < y.low) (sym s) (ground (arith, c))) (above r))
          ]
      | inr (i, e) ↦
          let (r, m, s, le, greatest) = subst (Nearest addr xs) e ih in
          let lt = All-mem (λ y. x.low < y.low) (λ y. le_prop) xs h.0 r m in
          rw e (
            r,
            mem-cons_of_mem x m,
            s,
            le,
            λ q n k.
                Or.elim le_prop (mem-cons.0 n)
                  (λ t. subst (λ y. y.low ≤ r.low) (sym t) (omega (arith, lt)))
                  (λ o. greatest q o k),
          )
    ]

Nearest-of_Perm :
    (addr : ℕ) (rs qs : List (Range SourceInfo)) (o : Option SourceInfo)
    → Perm rs qs
    → Nearest addr rs o
    → Nearest addr qs o
Nearest-of_Perm addr rs qs none p h = λ r m. h r ((Perm.mem_iff p).1 m)
Nearest-of_Perm addr rs qs (some i) p (r, m, s, le, g) =
    (r, (Perm.mem_iff p).0 m, s, le, λ q n k. g q ((Perm.mem_iff p).1 n) k)

abbrev pub no_lines : Executable
no_lines = record { names = []; lines = leaf; functions = leaf }

nothing_there : (es : List Saved) → All (λ e. All (λ r. r.low ≢ e.0) (ranges no_lines.lines)) es
unfolding ranges
nothing_there [] = tt
nothing_there (e ∷ es) = (tt, nothing_there es)

add_sources-Nearest :
    (es : List Saved) (addr : ℕ)
    → Distinct es
    → All (λ e. e.0 < 2 ^ 64 - 1) es
    → addr < 2 ^ 64 - 1
    → (x : Executable) × (add_sources es no_lines ≡ ok x)
      × Nearest addr (map as_point es) (find_info (patch_ranges x.lines) addr)
add_sources-Nearest es addr d b lt =
    let (x, f, (m, p, r, l), q) =
      add_sources-IsLines es no_lines
        (leaf-IsMap, unfold ranges in tt, unfold ranges in tt, unfold ranges in tt) d b
        (nothing_there es) in
    let all : map as_point es ++ ranges no_lines.lines ≡ map as_point es =
      unfold ranges in append-nil (map as_point es) in
    (
      x,
      f,
      subst (Nearest addr (map as_point es)) (sym (find_info-patched x.lines addr r l lt)) (
          Nearest-of_Perm addr (ranges x.lines) (map as_point es) (nearest addr (ranges x.lines))
            (subst (Perm (ranges x.lines)) all q) (nearest-Nearest addr (ranges x.lines) r)),
    )

-- If the lines that are saved have different addresses, and none has the greatest, then the lines of a
-- compilation unit are all added to an empty map, in whatever order they come; and when the ranges are
-- patched, the search for any address but the greatest finds the file and the number of the nearest
-- address at or below it, and nothing if there is none.
pub add_lines-Nearest :
    (es : List Saved) (addr : ℕ)
    → Distinct (saved es)
    → All (λ e. e.0 < 2 ^ 64 - 1) (saved es)
    → addr < 2 ^ 64 - 1
    → (x : Executable) × (add_lines (map entry_of es) no_lines ≡ ok x)
      × Nearest addr (map as_point (saved es)) (find_info (patch_ranges x.lines) addr)
add_lines-Nearest es addr d b lt =
    let (x, f, n) = add_sources-Nearest (saved es) addr d b lt in
    (x, add_lines-saved es no_lines ∙ f, n)
