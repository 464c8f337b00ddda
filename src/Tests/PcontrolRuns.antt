-- ===== src/Tests/PcontrolRuns.antt =====
-- pcontrol.c: the clock of one task.
use mpi_pv.Prelude.{◌≡◌, refl, true, some, List, [], ◌∷◌, arith, ◌+◌, ◌-◌}
use mpi_pv.Prelude.Int.{ℤ, pos}
use mpi_pv.Hash.{lookup}
use mpi_pv.Callsite.{CallsiteStats}
use mpi_pv.State.{Profiler, no_totals}
use mpi_pv.Task.{update_all}
use mpi_pv.Task.Refine.{IsTask, update_all-after}
use mpi_pv.Pcontrol.{Readings, reset_callsite_data}
use mpi_pv.Pcontrol.Clock.{
  pcontrol_all, time_on, profiled, at, pcontrol_all-time_on, turn_off_twice,
}
use mpi_pv.Pcontrol.Reset.{ResetTo, reset-ResetTo}
use mpi_pv.Tests.TaskRuns.{fresh, fresh-IsTask, calls}

-- On from 100, off at 110, on again at 150, a report from 170 to 180, and the end at 200.
abbrev requests : List (ℤ × Readings)
requests =
    (pos 0, at 110) ∷ (pos 1, at 150) ∷ (pos 3, record { now = 170; again = 175; done = 180 }) ∷ []

pcontrol_all-time_on_example :
    (q : Profiler) × (pcontrol_all requests fresh ≡ some q)
    × (profiled q 200 ≡ fresh.cumulative_time + time_on fresh.enabled 100 requests 200)
pcontrol_all-time_on_example =
    pcontrol_all-time_on requests fresh 100 200 (λ on. refl)
      (
        omega arith,
        omega arith,
        refl,
        (omega arith, omega arith, refl, (omega arith, omega arith, tt, omega arith)),
      )

time : time_on true 100 requests 200 ≡ 50
time = refl

turn_off_twice_example :
    (q : Profiler) × (pcontrol_all ((pos 0, at 110) ∷ (pos 0, at 150) ∷ []) fresh ≡ some q)
    × (profiled q 150 ≡ profiled fresh 110 + (150 - fresh.start_time))
turn_off_twice_example = turn_off_twice fresh 110 150 refl (omega arith) (omega arith)

abbrev busy : Profiler
busy = update_all fresh calls

reset-ResetTo_example :
    let q = reset_callsite_data 300 busy in
    IsTask q
    × ((k : CallsiteStats)
        → ResetTo (lookup busy.task_callsite_stats k) (lookup q.task_callsite_stats k))
    × (q.totals ≡ no_totals)
    × (q.cumulative_time ≡ 0)
    × (q.start_time ≡ 300)
reset-ResetTo_example = reset-ResetTo 300 busy (update_all-after calls fresh fresh-IsTask refl).0
