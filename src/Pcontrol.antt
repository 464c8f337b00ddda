-- ===== src/Pcontrol.antt =====
-- pcontrol.c: `MPI_Pcontrol`, and the clock that `mpiPi_generateReport` (mpiPi.c) shares with it.
-- Each call of `mpiPi_GETTIME` is an argument, in the order of the calls. A time is a number of
-- microseconds, where the source divides by 1000000 to keep seconds.
pub mod Clock
pub mod Reset
use mathlib.Core.Option
use mpi_pv.Prelude.{
  ℕ, zero, ◌+◌, ◌-◌, Bool, true, false, Option, none, some, ltb, ◌==◌, if◌then◌else◌,
}
use mpi_pv.Prelude.Int.{ℤ, pos, negsuc}
use mpi_pv.Hash.Rewrite.{rewrite_all}
use mpi_pv.Callsite.{CallsiteStats, dbl_max}
use mpi_pv.State.{Profiler, no_totals}

-- The loop body of `mpiPi_reset_callsite_data`.
unfoldable pub reset_record : CallsiteStats → CallsiteStats
reset_record csp = record csp {
  max_dur = 0;
  min_dur = dbl_max;
  max_io = 0;
  min_io = dbl_max;
  max_data_sent = 0;
  min_data_sent = dbl_max;
  count = 0;
  cumulative_time = 0;
  cumulative_time_squared = 0;
  cumulative_data_sent = 0;
  cumulative_io = 0;
  arbitrary_message_count = 0;
}

unfoldable pub reset_callsite_data : ℕ → Profiler → Profiler
reset_callsite_data now p = record p {
  task_callsite_stats = rewrite_all p.task_callsite_stats reset_record;
  start_time = now;
  cumulative_time = 0;
  totals = no_totals;
}

-- `mpiPi_GETTIME (&mpiPi.endTime)`, `mpiPi.cumulativeTime += dur`, and the assertion that it is not
-- negative: `none` if it fails. The clock may have been set back.
unfoldable pub add_elapsed : ℕ → Profiler → Option Profiler
add_elapsed now p =
    if ltb (p.cumulative_time + now) p.start_time
    then none
    else some
        (record p { end_time = now; cumulative_time = p.cumulative_time + now - p.start_time })

-- `mpiPi_GETTIME (&mpiPi.startTime)`, and `mpiPi.enabled = 0`
abbrev restart : ℕ → Profiler → Profiler
restart now p = record p { start_time = now }

abbrev disable : Profiler → Profiler
disable p = record p { enabled = false }

-- What a report does to the clock of the task that makes it: `endTime` is read at `now`, and, if the
-- task is enabled, `startTime` at `again`.
unfoldable pub report_clock : ℕ → ℕ → Profiler → Option Profiler
report_clock now again p =
    if p.enabled
    then Option.map (restart again) (add_elapsed now p)
    else some (record p { end_time = now })

-- The readings of the clock during one call: at its start, in a report after the first, and at the
-- end of a report.
pub record Readings : Type 0 where
  pub now : ℕ
  pub again : ℕ
  pub done : ℕ

abbrev pub is_flag : ℤ → ℕ → Bool
is_flag (pos n) m = n == m
is_flag (negsuc n) m = false

-- `mpiPi_MPI_Pcontrol`
unfoldable pub pcontrol : ℤ → Readings → Profiler → Option Profiler
pcontrol flag t p =
    if is_flag flag 0
    then Option.map disable (add_elapsed t.now p)
    else if is_flag flag 2
    then some (reset_callsite_data t.now p)
    else if is_flag flag 3
    then Option.map (restart t.done) (report_clock t.now t.again p)
    else if is_flag flag 4
    then Option.map (restart t.done) (report_clock t.now t.again p)
    else some (record p { enabled = true; enabled_count = p.enabled_count + 1; start_time = t.now })
