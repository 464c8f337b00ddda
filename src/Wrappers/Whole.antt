-- ===== src/Wrappers/Whole.antt =====
-- mpiPi.c, wrappers.c: from the start of the profiler to the table after a program's calls.
use mpi_pv.Prelude.{ℕ, ◌≡◌, ap, ◌∙◌, true, Option, some, List, keep}
use mpi_pv.Hash.{ok, lookup}
use mpi_pv.Callsite.{CallsiteStats, Text}
use mpi_pv.State.{Profiler}
use mpi_pv.Options.{configured, Parsed, apply_options}
use mpi_pv.Init.{init, init-IsTask}
use mpi_pv.Task.Refine.{at_site, Summarises, update_all-Summarises}
use mpi_pv.Wrappers.{Calls, run_calls}
use mpi_pv.Wrappers.Nested.{Timed, events, run_calls-events}

-- A whole run: with any options that leave the profiler on, `mpiPi_init` succeeds if it gets its memory,
-- the wrappers run without an error for any calls of the program during each of which the clock does
-- not go back, and then, for every call site, the table has no record if no outermost call came from
-- it, and else one with the number, the sums and the greatest durations and sizes of exactly the
-- outermost calls from it, and with the least ones, of DBL_MAX and theirs, but for the least size of
-- remote memory access, which is always 0.
pub run_calls-Summarises :
    (rank now : ℕ) (name : Text) (full : Option Text) (os : List Parsed) (cs : Calls)
    → (apply_options os (configured name full)).enabled ≡ true
    → Timed cs
    → (p : Profiler) × (init true true rank name full os now ≡ ok p)
      × ((q : Profiler) × (run_calls cs p ≡ some q)
          × ((k : CallsiteStats)
              → Summarises p.settings.message_count_threshold p.settings.stack_depth
                  (keep (at_site p.settings.stack_depth k) (events cs p))
                  (lookup q.task_callsite_stats k)))
run_calls-Summarises rank now name full os cs on timed =
    let (p, starts, task, empty, enabled) = init-IsTask rank now name full os in
    let (q, runs, cells) = run_calls-events cs p timed (enabled ∙ on) in
    (
      p,
      starts,
      (
        q,
        runs,
        λ k.
            rw (ap (λ (r : Profiler). lookup r.task_callsite_stats k) cells)
              (update_all-Summarises (events cs p) p task (enabled ∙ on) k (empty k)),
      ),
    )
