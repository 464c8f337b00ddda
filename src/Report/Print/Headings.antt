-- ===== src/Report/Print/Headings.antt =====
-- report.c: the headings among the lines of the sections.
use mpi_pv.Prelude.{
  ℕ, zero, suc, ◌+◌, ◌≡◌, refl, ap, inl, inr, Bool, true, false, Bool-cases, ltb, ◌==◌, ◌&&◌, ◌||◌,
  not, Option-cases, List, [], ◌∷◌, ◌++◌, if◌then◌else◌,
}
use mpi_pv.Prelude.Int.{ℤ, pos, negsuc}
use mpi_pv.Callsite.{CallsiteStats, Text}
use mpi_pv.State.{Histogram, Histograms}
use mpi_pv.Sources.{SrcEntry, Frame, unknown}
use mpi_pv.Report.{Line, heading, row, blank, header, no_operations, Section, Report, Format}
use mpi_pv.Report.Top.{top_rows, time_line, size_line, threshold_lines}
use mpi_pv.Report.TopCells.{Place, cell_rows, cell_line, or_none, value}
use mpi_pv.Report.Tasks.{
  print_task_assignment, task_time_rows, is_main, frame_line, frame_lines, callsite_lines, equals,
}
use mpi_pv.Report.Detail.{
  View, Sums, no_sums, time_view, time_summary, time_rank, is_printed, time_loop, size_summary,
  size_rank, size_loop, size_rows,
}
use mpi_pv.Report.Coll.{
  Tasks, task_data, last_op, all_sums, is_reported, coll_time_ranks, coll_time_site, counting,
  coll_size_ranks, coll_size_site, for_sites,
}

-- The sections that begin among some lines, in their order.
abbrev pub headings : List Line → List Section
headings [] = []
headings (heading s n ∷ ls) = s ∷ headings ls
headings (row f cells ∷ ls) = headings ls
headings (blank ∷ ls) = headings ls
headings (no_operations ∷ ls) = headings ls
headings (header ∷ ls) = headings ls

pub headings-append : (ls ks : List Line) → headings (ls ++ ks) ≡ headings ls ++ headings ks
headings-append [] ks = refl
headings-append (heading s n ∷ ls) ks = ap (λ l. s ∷ l) (headings-append ls ks)
headings-append (row f cells ∷ ls) ks = headings-append ls ks
headings-append (blank ∷ ls) ks = headings-append ls ks
headings-append (no_operations ∷ ls) ks = headings-append ls ks
headings-append (header ∷ ls) ks = headings-append ls ks

-- Lines that begin no section
pub record Plain (ls : List Line) : Type 0 where
  pub begins : headings ls ≡ []

pub none_begins : {ls : List Line} → headings ls ≡ [] → Plain ls
none_begins e = record { begins = e }

pub nothing : Plain []
nothing = none_begins refl

a_blank : Plain (blank ∷ [])
a_blank = none_begins refl

pub Plain-append : {ls ks : List Line} → Plain ls → Plain ks → Plain (ls ++ ks)
Plain-append {ls} {ks} p q = none_begins (rw (headings-append ls ks, p.begins, q.begins) refl)

pub Plain-if : (b : Bool) {ls ks : List Line} → Plain ls → Plain ks → Plain (if b then ls else ks)
Plain-if true p q = p
Plain-if false p q = q

top_rows-Plain :
    (n : ℕ) (f : CallsiteStats → ℕ) (line : CallsiteStats → Line) (av : List CallsiteStats)
    → ((p : CallsiteStats) → Plain (line p ∷ []))
    → Plain (top_rows n f line av)
unfolding top_rows
top_rows-Plain zero f line av h = none_begins refl
top_rows-Plain (suc left) f line [] h = none_begins refl
top_rows-Plain (suc left) f line (p ∷ av) h =
    let rest = top_rows-Plain left f line av h in
    Plain-if (ltb 0 (f p)) (Plain-append (h p) rest) rest

module _ (r : Report) where
  time_line-Plain : (p : CallsiteStats) → Plain (time_line r p ∷ [])
  unfolding time_line
  time_line-Plain p = elim (Bool-cases r.settings.calc_cov) [
    | inl e ↦ rw e (none_begins refl)
    | inr e ↦ rw e (none_begins refl)
  ]

  pub time_tops-Plain :
      (av : List CallsiteStats) → Plain (top_rows 20 (λ p. p.cumulative_time) (time_line r) av)
  time_tops-Plain av = top_rows-Plain 20 (λ p. p.cumulative_time) (time_line r) av time_line-Plain

  pub threshold_lines-Plain : Plain (threshold_lines r.settings.message_count_threshold r.totals)
  unfolding threshold_lines
  threshold_lines-Plain = by_threshold r.settings.message_count_threshold
    where
      by_threshold : (t : ℤ) → Plain (threshold_lines t r.totals)
      by_threshold (pos n) = none_begins refl
      by_threshold (negsuc n) = none_begins refl

  pub task_time_rows-Plain : (left i : ℕ) → Plain (task_time_rows r left i)
  unfolding task_time_rows
  task_time_rows-Plain zero i = none_begins refl
  task_time_rows-Plain (suc left) i = none_begins (task_time_rows-Plain left (i + 1)).begins

pub size_tops-Plain :
    (format : Format) (f : CallsiteStats → ℕ) (total : ℕ) (av : List CallsiteStats)
    → Plain (top_rows 20 f (size_line format f total) av)
unfolding size_line
size_tops-Plain format f total av =
    top_rows-Plain 20 f (size_line format f total) av (λ p. none_begins refl)

pub print_task_assignment-Plain :
    (i : ℕ) (names : List Text) → Plain (print_task_assignment i names)
unfolding print_task_assignment
print_task_assignment-Plain i [] = none_begins refl
print_task_assignment-Plain i (name ∷ names) =
    none_begins (print_task_assignment-Plain (i + 1) names).begins

cell_rows-Plain :
    (n : ℕ) (stats : Histograms) (line : Place → Line) (cs : List Place)
    → ((c : Place) → Plain (line c ∷ []))
    → Plain (cell_rows n stats line cs)
unfolding cell_rows
cell_rows-Plain zero stats line cs h = none_begins refl
cell_rows-Plain (suc left) stats line [] h = none_begins refl
cell_rows-Plain (suc left) stats line (c ∷ cs) h =
    Plain-if (value stats c == 0) (none_begins refl)
      (Plain-append (h c) (cell_rows-Plain left stats line cs h))

or_none-Plain : (cs : List Place) (ls : List Line) → Plain ls → Plain (or_none cs ls)
or_none-Plain [] ls h = none_begins refl
or_none-Plain (c ∷ cs) ls h = h

pub cells-Plain :
    (comms sizes : Histogram) (stats : Histograms) (total : ℕ) (found sorted : List Place)
    → Plain (or_none found (cell_rows 20 stats (cell_line comms sizes stats total) sorted))
unfolding cell_line
cells-Plain comms sizes stats total found sorted =
    or_none-Plain found _
      (cell_rows-Plain 20 stats (cell_line comms sizes stats total) sorted (λ c. none_begins refl))

frame_line-Plain :
    (e : SrcEntry) (j : ℕ) (file : Text) (f : Frame) → Plain (frame_line e j file f ∷ [])
unfolding frame_line
frame_line-Plain e j file f =
    elim (Bool-cases (f.line == 0 && (equals file unknown || equals f.functname unknown))) [
      | inl k ↦ rw k (none_begins refl)
      | inr k ↦ rw k (none_begins refl)
    ]

frame_lines-Plain : (e : SrcEntry) (left j : ℕ) (fs : List Frame) → Plain (frame_lines e left j fs)
unfolding frame_lines
frame_lines-Plain e zero j fs = none_begins refl
frame_lines-Plain e (suc left) j [] = none_begins refl
frame_lines-Plain e (suc left) j (f ∷ fs) = elim (Option-cases f.filename) [
  | inl n ↦ rw n (none_begins refl)
  | inr (file, n) ↦ rw n (
      Plain-append (frame_line-Plain e j file f)
        (Plain-if (is_main f.functname) (none_begins refl) (frame_lines-Plain e left (j + 1) fs)))
]

pub callsite_lines-Plain : (depth : ℕ) (es : List SrcEntry) → Plain (callsite_lines depth es)
unfolding callsite_lines
callsite_lines-Plain depth [] = none_begins refl
callsite_lines-Plain depth (e ∷ es) =
    Plain-append (frame_lines-Plain e depth 0 e.frames) (callsite_lines-Plain depth es)

-- The lines of a test, one of them or none
one-Plain : (b : Bool) (l : Line) → Plain (l ∷ []) → Plain (if b then l ∷ [] else [])
one-Plain b l p = Plain-if b p nothing

pub time_loop-Plain :
    (r : Report) (prev : CallsiteStats) (s : Sums) (av : List CallsiteStats)
    → Plain (time_loop r prev s av)
unfolding time_loop time_summary time_rank
time_loop-Plain r prev s [] = none_begins refl
time_loop-Plain r prev s (p ∷ av) =
    Plain-append (Plain-if (not (p.csid == prev.csid)) (none_begins refl) (none_begins refl))
      (Plain-append (one-Plain (is_printed r p) _ (none_begins refl)) (time_loop-Plain r p _ av))

module _ (v : View) (rf sf : Format) where
  size_loop-Plain :
      (prev : CallsiteStats) (last : ℕ) (s : Sums) (av : List CallsiteStats)
      → Plain (size_loop v rf sf prev last s av)
  unfolding size_loop size_summary size_rank
  size_loop-Plain prev last s [] = one-Plain (ltb 0 s.cumulative) _ (none_begins refl)
  size_loop-Plain prev last s (p ∷ av) =
      let next = ltb 0 s.cumulative && not (p.csid == prev.csid) in
      let counts = ltb 0 (v.cumulative p) in
      Plain-append (one-Plain next _ (none_begins refl)) (
        Plain-append
          (one-Plain (counts && (not (last == 0) && not (last == p.csid))) blank (none_begins refl))
          (Plain-append (one-Plain counts _ (none_begins refl)) (size_loop-Plain p _ _ av)))

  pub size_rows-Plain : (av : List CallsiteStats) → Plain (size_rows v rf sf av)
  unfolding size_rows
  size_rows-Plain [] = none_begins refl
  size_rows-Plain (p ∷ av) = size_loop-Plain p 0 no_sums (p ∷ av)

  coll_size_ranks-Plain :
      (own_name : Bool) (p : CallsiteStats) (ds : List CallsiteStats)
      → Plain (coll_size_ranks v rf own_name p ds)
  unfolding coll_size_ranks size_rank
  coll_size_ranks-Plain own_name p [] = none_begins refl
  coll_size_ranks-Plain own_name p (d ∷ ds) =
      none_begins (coll_size_ranks-Plain own_name p ds).begins

  pub coll_size_site-Plain :
      (rma own_name : Bool) (tasks : Tasks) (p : CallsiteStats)
      → Plain (coll_size_site v rma rf sf own_name tasks p)
  unfolding coll_size_site size_summary
  coll_size_site-Plain rma own_name tasks p =
      let s = all_sums v (counting v (task_data 0 rma tasks p 0 tasks.tables)) no_sums in
      Plain-if (ltb 0 (v.cumulative p))
        (Plain-append (coll_size_ranks-Plain own_name p _) (
          Plain-append
            (one-Plain (ltb 0 s.cumulative) (size_summary sf _ p.csid s) (none_begins refl))
            a_blank))
        nothing

coll_time_ranks-Plain :
    (r : Report) (p : CallsiteStats) (ds : List CallsiteStats) → Plain (coll_time_ranks r p ds)
unfolding coll_time_ranks time_rank
coll_time_ranks-Plain r p [] = none_begins refl
coll_time_ranks-Plain r p (d ∷ ds) =
    Plain-append (one-Plain (is_reported r d) _ (none_begins refl)) (coll_time_ranks-Plain r p ds)

pub coll_time_site-Plain :
    (r : Report) (tasks : Tasks) (p : CallsiteStats) → Plain (coll_time_site r tasks p)
unfolding coll_time_site time_summary
coll_time_site-Plain r tasks p =
    let ds = task_data 0 false tasks p 0 tasks.tables in
    let s = all_sums time_view ds no_sums in
    let summary : Plain (time_summary r (last_op p.op ds) p.csid s ∷ blank ∷ []) =
      none_begins refl in
    Plain-append (coll_time_ranks-Plain r p ds) (Plain-if (ltb 0 s.count) summary nothing)

pub for_sites-Plain :
    (lines : CallsiteStats → List Line) (av : List CallsiteStats)
    → ((p : CallsiteStats) → Plain (lines p))
    → Plain (for_sites lines av)
unfolding for_sites
for_sites-Plain lines [] h = none_begins refl
for_sites-Plain lines (p ∷ av) h = Plain-append (h p) (for_sites-Plain lines av h)
