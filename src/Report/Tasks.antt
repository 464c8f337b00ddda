-- ===== src/Report/Tasks.antt =====
-- report.c: the sections on the time of each task, and the header and the list of call stacks before
-- the statistics.
pub mod AppTime
use mpi_pv.Prelude.{
  ℕ, zero, suc, ◌+◌, ◌-◌, ◌*◌, ◌^◌, min, max, Ordering, Bool, true, false, Option, none, some, List,
  [], ◌∷◌, ◌++◌, map, ltb, ◌==◌, ◌&&◌, ◌||◌, if◌then◌else◌, get_or, length,
}
use mpi_pv.Hash.{Run, ok, ◌>>=◌, gather}
use mpi_pv.Callsite.{Text, dbl_max}
use mpi_pv.State.{Totals}
use mpi_pv.Sources.{Frame, SrcEntry, strcmp, unknown}
use mpi_pv.Names.{codes}
use mpi_pv.Report.{
  Cell, text, num, quot, root, unset, Format, mpi_time_fmt, mpi_time_summary_fmt, task_stats_fmt,
  address_fmt, source_fmt, assignment_fmt, mpi_time_section, task_statistics_section,
  callsites_section, Line, heading, row, Report, short_name, sort_by_id, square_distance,
  percentage,
}
use mpi_pv.Report.Top.{SortOf}

unfoldable pub print_task_assignment : ℕ → List Text → List Line
print_task_assignment i [] = []
print_task_assignment i (name ∷ names) =
    row assignment_fmt (num i ∷ text name ∷ []) ∷ print_task_assignment (i + 1) names

-- `for (i = 0; i < mpiPi.size; i++) mpiPi.global_app_time += mpiPi.global_task_app_time[i];`
unfoldable pub add_app_times : ℕ → ℕ → List ℕ → ℕ → ℕ
add_app_times zero i times total = total
add_app_times (suc left) i times total = add_app_times left (i + 1) times (total + get_or times i 0)

unfoldable pub task_time_rows : Report → ℕ → ℕ → List Line
task_time_rows r zero i = []
task_time_rows r (suc left) i =
    let app_time = get_or r.global_task_app_time i 0 in
    let mpi_time = get_or r.global_task_mpi_time i 0 in
    row mpi_time_fmt
      (num i ∷ quot app_time 1000000 ∷ quot mpi_time 1000000 ∷ percentage mpi_time app_time ∷ [])
    ∷ task_time_rows r left (i + 1)

abbrev pub with_app_time : ℕ → Report → Report
with_app_time t r = record r { totals = record r.totals { global_app_time = t } }

-- It clears `global_app_time` first.
unfoldable pub print_verbose_task_info : Report → Report × List Line
print_verbose_task_info r =
    let total = add_app_times r.size 0 r.global_task_app_time 0 in
    (
      with_app_time total r,
      heading mpi_time_section none
          ∷ (task_time_rows r r.size 0
              ++ row mpi_time_summary_fmt (
                  quot total 1000000
                  ∷ quot r.totals.global_mpi_time 1000000
                  ∷ percentage r.totals.global_mpi_time total
                  ∷ [])
                ∷ []),
    )

-- The variables of `mpiPi_print_concise_task_info` for one kind of time. A rank that is not set has no
-- value.
pub record Extremes : Type 0 where
  pub least : ℕ
  pub greatest : ℕ
  pub total : ℕ
  pub min_rank : Option ℕ
  pub max_rank : Option ℕ

unfoldable pub note_time : ℕ → ℕ → Extremes → Extremes
note_time i t e = record {
  least = if ltb t e.least then t else e.least;
  min_rank = if ltb t e.least then some i else e.min_rank;
  greatest = if ltb e.greatest t then t else e.greatest;
  max_rank = if ltb e.greatest t then some i else e.max_rank;
  total = e.total + t;
}

unfoldable pub note_times : ℕ → ℕ → List ℕ → Extremes → Extremes
note_times zero i times e = e
note_times (suc left) i times e = note_times left (i + 1) times (note_time i (get_or times i 0) e)

abbrev pub no_extremes : Extremes
no_extremes = record { least = dbl_max; greatest = 0; total = 0; min_rank = none; max_rank = none }

-- The sum of the squares of `mean - times[i]`, times the square of the size
unfoldable pub variances : ℕ → ℕ → ℕ → ℕ → List ℕ → ℕ
variances size total zero i times = 0
variances size total (suc left) i times =
    square_distance total (size * get_or times i 0) + variances size total left (i + 1) times

abbrev rank_cell : Option ℕ → Cell
rank_cell none = unset
rank_cell (some r) = num r

-- `sqrt (var / (size - 1))` in seconds
abbrev deviation : ℕ → Extremes → List ℕ → Cell
deviation size e times =
    root (variances size e.total size 0 times) (size * size * (size - 1) * 10 ^ 12)

-- It adds to `global_app_time`, which it does not clear.
unfoldable pub print_concise_task_info : Report → Report × List Line
print_concise_task_info r =
    let app = note_times r.size 0 r.global_task_app_time no_extremes in
    let mpi = note_times r.size 0 r.global_task_mpi_time no_extremes in
    (
      with_app_time (add_app_times r.size 0 r.global_task_app_time r.totals.global_app_time) r,
      heading task_statistics_section none
          ∷ row task_stats_fmt (
              quot app.greatest 1000000
              ∷ quot mpi.greatest 1000000
              ∷ rank_cell app.max_rank
              ∷ rank_cell mpi.max_rank
              ∷ [])
          ∷ row task_stats_fmt
              (quot app.total (r.size * 1000000) ∷ quot mpi.total (r.size * 1000000) ∷ [])
          ∷ row task_stats_fmt (
              quot app.least 1000000
              ∷ quot mpi.least 1000000
              ∷ rank_cell app.min_rank
              ∷ rank_cell mpi.min_rank
              ∷ [])
          ∷ row task_stats_fmt (
              deviation r.size app r.global_task_app_time
              ∷ deviation r.size mpi r.global_task_mpi_time
              ∷ [])
          ∷ row task_stats_fmt (
              quot app.total 1000000
              ∷ quot mpi.total 1000000
              ∷ quot (100 * mpi.total) app.total
              ∷ [])
          ∷ [],
    )

-- `strcmp (..) == 0`
abbrev pub equals : Text → Text → Bool
equals a b = elim (strcmp a b) [ Ordering.eq ↦ true | _ ↦ false ]

abbrev pub is_main : Text → Bool
is_main name =
    equals name (codes "main") || (equals name (codes ".main") || equals name (codes "MAIN__"))

-- The line of frame `j` of an entry, with its operation if it is the first
unfoldable pub frame_line : SrcEntry → ℕ → Text → Frame → Line
frame_line e j file f =
    let call = if j == 0 then text (short_name e.op) else text [] in
    if f.line == 0 && (equals file unknown || equals f.functname unknown)
    then row address_fmt (num e.id ∷ num j ∷ num f.pc ∷ text f.functname ∷ call ∷ [])
    else row source_fmt (num e.id ∷ num j ∷ text file ∷ num f.line ∷ text f.functname ∷ call ∷ [])

-- The frames of an entry, up to the first with no file and no further than `main`; what is past the
-- end of the list has no file. `left` is what MPIP_CALLSITE_STACK_DEPTH leaves.
unfoldable pub frame_lines : SrcEntry → ℕ → ℕ → List Frame → List Line
frame_lines e zero j fs = []
frame_lines e (suc left) j [] = []
frame_lines e (suc left) j (f ∷ fs) =
    let rest = if is_main f.functname then [] else frame_lines e left (j + 1) fs in
    elim f.filename [ none ↦ [] | some file ↦ frame_line e j file f ∷ rest ]

unfoldable pub callsite_lines : ℕ → List SrcEntry → List Line
callsite_lines depth [] = []
callsite_lines depth (e ∷ es) = frame_lines e depth 0 e.frames ++ callsite_lines depth es

unfoldable pub print_callsites : SortOf SrcEntry → Report → Run (List Line)
print_callsites qsort r = if r.settings.stack_depth == 0 then ok [] else (do
  (ac, av) ← gather r.src_id_cache
  ok (
      heading callsites_section (some ac)
      ∷ callsite_lines r.settings.stack_depth (qsort sort_by_id av)))
