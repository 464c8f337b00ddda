-- ===== src/Dwarf/Lines.antt =====
-- pc_lookup_dwarf.c: the map from addresses to source lines, from an empty map to a search.
use mathlib.Core.Path.{subst}
use mathlib.Core.List.{Perm, perm_middle}
use mathlib.Core.List.Perm
use mpi_pv.Prelude.{
  ℕ, ◌-◌, ◌^◌, ◌<◌, ◌≡◌, ◌≢◌, refl, sym, false, inl, inr, some, List, [], ◌∷◌, ◌++◌, map, All,
  All-map, leb, Bool-cases, Option-cases, Ordering, arith,
}
use mpi_pv.Hash.{Run, ok, ◌>>=◌}
use mpi_pv.Callsite.{Text, express}
use mpi_pv.RangeMap.{Range}
use mpi_pv.RangeMap.Order.{ranges, clashes, inserted}
use mpi_pv.RangeMap.Balance.{IsMap, add-Added, Added}
use mpi_pv.Sources.{strcmp}
use mpi_pv.Dwarf.{known_name, unique_file_name, SourceInfo, Executable, add_source}
use mpi_pv.Dwarf.Patch.{Rising}

-- A line of the source at an address, before the ranges are patched
abbrev pub point : ℕ → Text → ℕ → Range SourceInfo
point addr file number = record {
  low = addr;
  high = addr;
  info = record { file_name = file; line_number = number };
}

abbrev pub Points : List (Range SourceInfo) → Type 0
Points rs = All (λ r. r.low ≡ r.high) rs

strcmp_eq : (a b : Text) → strcmp a b ≡ Ordering.eq → a ≡ b
unfolding strcmp express
strcmp_eq [] [] h = refl
strcmp_eq [] (b ∷ ys) h = cc
strcmp_eq (a ∷ xs) [] h = cc
strcmp_eq (a ∷ xs) (b ∷ ys) h = ground (arith, strcmp_eq xs ys)

known_name-same :
    (name : Text) (names : List Text) (x : Text) → known_name name names ≡ some x → x ≡ name
unfolding known_name
known_name-same name [] x e = cc
known_name-same name (y ∷ ys) x e = ground (arith, known_name-same name ys x, strcmp_eq name y)

-- The unique name is the name.
unique_file_name-same : (name : Text) (names : List Text) → (unique_file_name name names).1 ≡ name
unfolding unique_file_name
unique_file_name-same name names = elim (Option-cases (known_name name names)) [
  | inl e ↦ rw (e, unique_file_name) refl
  | inr (x, e) ↦ rw (e, unique_file_name) (known_name-same name names x e)
]

clashes-Points :
    (addr : ℕ) (file : Text) (number : ℕ) (rs : List (Range SourceInfo))
    → Points rs
    → clashes (point addr file number) rs ≡ false
clashes-Points addr file number [] h = refl
clashes-Points addr file number (r ∷ rs) h =
    ground (arith, h.0, clashes-Points addr file number rs h.1)

-- A line is added whatever is in the map.
pub add_source-inserted :
    (addr : ℕ) (file : Text) (number : ℕ) (x : Executable)
    → IsMap x.lines
    → Points (ranges x.lines)
    → (x' : Executable) × (add_source addr file number x ≡ ok x')
      × IsMap x'.lines
      × (ranges x'.lines ≡ inserted (point addr file number) (ranges x.lines))
unfolding add_source
add_source-inserted addr file number x m p =
    let name = unique_file_name-same file x.names in
    let e = point addr file number in
    let (t, f, m', r) : Added e x.lines false =
      subst (Added e x.lines) (clashes-Points addr file number (ranges x.lines) p)
        (add-Added e x.lines m (omega arith)) in
    (record x { names = (unique_file_name file x.names).0; lines = t }, rw (name, f) refl, m', r)

pub All-inserted {κ} :
    {A : Type 0} (P : Range A → Type κ) (e : Range A) (rs : List (Range A))
    → All P rs
    → P e
    → All P (inserted e rs)
unfolding inserted
All-inserted P e [] h p = (p, tt)
All-inserted P e (r ∷ rs) h p = elim (Bool-cases (leb e.high r.low)) [
  | inl c ↦ rw c (p, h)
  | inr c ↦ rw c (h.0, All-inserted P e rs h.1 p)
]

inserted-perm : {A : Type 0} (e : Range A) (rs : List (Range A)) → Perm (inserted e rs) (e ∷ rs)
unfolding inserted
inserted-perm e [] = Perm.refl (e ∷ [])
inserted-perm e (r ∷ rs) = elim (Bool-cases (leb e.high r.low)) [
  | inl c ↦ rw c (Perm.refl (e ∷ r ∷ rs))
  | inr c ↦ rw c (Perm.trans (Perm.cons r (inserted-perm e rs)) (Perm.swap e r rs))
]

inserted-Rising :
    {A : Type 0} (e : Range A) (rs : List (Range A))
    → e.low ≡ e.high
    → Rising rs
    → All (λ r. r.low ≢ e.low) rs
    → Rising (inserted e rs)
unfolding inserted
inserted-Rising e [] p h d = (tt, tt)
inserted-Rising e (r ∷ rs) p h d = elim (Bool-cases (leb e.high r.low)) [
  | inl c ↦
      let lt : e.low < r.low = ground (arith, c, p, d.0) in
      rw c ((lt, All-map (λ y k. omega (arith, lt)) rs h.0), h)
  | inr c ↦ rw c (
    All-inserted (λ y. r.low < y.low) e rs h.0 (ground (arith, c, p)),
    inserted-Rising e rs p h.1 d.1,
  )
]

-- Lines that are saved: their addresses, files and numbers, added one after the other.
abbrev pub Saved : Type 0
Saved = ℕ × Text × ℕ

abbrev pub add_sources : List Saved → Executable → Run Executable
add_sources [] x = ok x
add_sources ((addr, file, number) ∷ es) x = add_source addr file number x >>= add_sources es

abbrev pub as_point : Saved → Range SourceInfo
as_point (addr, file, number) = point addr file number

-- No two of the addresses are the same.
abbrev pub Distinct : List Saved → Type 0
Distinct [] = Unit
Distinct (e ∷ es) = All (λ d. d.0 ≢ e.0) es × Distinct es

-- What the map of lines is before it is patched
abbrev IsLines : Executable → Type 0
IsLines x =
    IsMap x.lines
    × Points (ranges x.lines)
    × Rising (ranges x.lines)
    × All (λ r. r.low < 2 ^ 64 - 1) (ranges x.lines)

still_fresh :
    (e : Range SourceInfo) (rs : List (Range SourceInfo)) (es : List Saved)
    → All (λ d. All (λ r. r.low ≢ d.0) rs) es
    → All (λ d. d.0 ≢ e.low) es
    → All (λ d. All (λ r. r.low ≢ d.0) (inserted e rs)) es
still_fresh e rs [] f h = tt
still_fresh e rs (d ∷ es) f h =
    (All-inserted (λ r. r.low ≢ d.0) e rs f.0 (λ k. h.0 (sym k)), still_fresh e rs es f.1 h.1)

pub add_sources-IsLines :
    (es : List Saved) (x : Executable)
    → IsLines x
    → Distinct es
    → All (λ e. e.0 < 2 ^ 64 - 1) es
    → All (λ e. All (λ r. r.low ≢ e.0) (ranges x.lines)) es
    → (y : Executable) × (add_sources es x ≡ ok y)
      × IsLines y
      × Perm (ranges y.lines) (map as_point es ++ ranges x.lines)
add_sources-IsLines [] x h d b f = (x, refl, h, Perm.refl (ranges x.lines))
add_sources-IsLines ((addr, file, number) ∷ es) x (m, p, r, l) d b f =
    let e = point addr file number in
    let rs = ranges x.lines in
    let (y, g, m', s) = add_source-inserted addr file number x m p in
    let moved = λ (P : Range SourceInfo → Type 0) (k : All P rs) (q : P e).
      subst (All P) (sym s) (All-inserted P e rs k q) in
    let lines : IsLines y = (
      m',
      moved (λ q. q.low ≡ q.high) p refl,
      subst Rising (sym s) (inserted-Rising e rs refl r f.0),
      moved (λ q. q.low < 2 ^ 64 - 1) l b.0,
    ) in
    let (z, g', h, q) =
      add_sources-IsLines es y lines d.1 b.1 (
        subst (λ l. All (λ c. All (λ q. q.low ≢ c.0) l) es) (sym s)
          (still_fresh e rs es f.1 d.0)) in
    (
      z,
      rw (g, g') refl,
      h,
      Perm.trans q (
          Perm.trans
            (Perm.append_left (map as_point es)
              (subst (λ l. Perm l (e ∷ rs)) (sym s) (inserted-perm e rs)))
            (perm_middle (map as_point es) rs)),
    )
