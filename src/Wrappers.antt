-- ===== src/Wrappers.antt =====
-- wrappers.c: the functions `mpiPif_MPI_..` that stand between a program and the MPI library. They are
-- generated from one shape, with five ways to find a size and three to account for a call.
-- The readings of the clock, the call stack that `mpiPi_RecordTraceBack` stores, the sizes that
-- `PMPI_Type_size` and `PMPI_Comm_size` give are arguments. While a `PMPI_` function runs, the library
-- may call wrapped functions itself: a call holds the calls that are nested in it.
pub mod Nested
pub mod Instances
pub mod Communicators
pub mod Requests
pub mod Bounds
pub mod Whole
use mpi_pv.Prelude.{
  ℕ, ◌+◌, ◌-◌, ◌*◌, Bool, true, false, Option, none, some, List, [], ◌∷◌, ltb, ◌==◌, ◌&&◌,
  if◌then◌else◌, replicate,
}
use mpi_pv.Callsite.{mpi_base, stack_depth_max}
use mpi_pv.State.{Profiler, Histograms}
use mpi_pv.Task.{Event, update_callsite_stats}
use mpi_pv.Histogram.{get_histogram_bin, update_collective_stats, update_pt2pt_stats}

-- Which histogram a wrapper updates.
pub data Kind : Type 0 where
  plain collective pt2pt : Kind

-- One run of a wrapper. `begin` and `end` are the readings of the clock.
pub record Details : Type 0 where
  pub op : ℕ
  pub kind : Kind
  pub begin : ℕ
  pub end : ℕ
  pub call_stack : List ℕ
  pub mess_size : ℕ
  pub io_size : ℕ
  pub rma_size : ℕ
  pub comm_size : ℕ

-- `if (mpiPi.stackDepth > 0) mpiPi_RecordTraceBack (..)`, into an array of NULL
unfoldable pub traced : Details → Profiler → List ℕ
traced d p = if ltb 0 p.settings.stack_depth then d.call_stack else replicate stack_depth_max 0

unfoldable pub event : Details → Profiler → Event
event d p = record {
  op = d.op;
  rank = p.rank;
  pc = traced d p;
  dur = d.end - d.begin;
  send_size = d.mess_size;
  io_size = d.io_size;
  rma_size = d.rma_size;
}

-- `stats[x][y][z] += dur` for a duration that is negative, by its amount
abbrev take_at : ℕ → ℕ → ℕ → ℕ → Histograms → Histograms
take_at x y z amount stats x' y' z' =
    if x == x' && (y == y' && z == z') then stats x' y' z' - amount else stats x' y' z'

-- `mpiPi_update_collective_stats` for a duration that may be negative; a cell that it would make
-- negative is not represented and gives `none`.
unfoldable pub collective_stats : Details → Profiler → Option Profiler
collective_stats d p =
    let x = d.op - mpi_base in
    let y = get_histogram_bin p.coll_comm_histogram d.comm_size in
    let z = get_histogram_bin p.coll_size_histogram d.mess_size in
    if ltb d.end d.begin
    then (if ltb (p.coll_time_stats x y z + d.end) d.begin
        then none
        else some
            (record p { coll_time_stats = take_at x y z (d.begin - d.end) p.coll_time_stats }))
    else some (update_collective_stats d.op (d.end - d.begin) d.mess_size d.comm_size p)

unfoldable pub histogram_stats : Details → Profiler → Option Profiler
histogram_stats d p = elim d.kind [
  | plain ↦ some p
  | collective ↦ if p.settings.do_collective_stats_report then collective_stats d p else some p
  | pt2pt ↦
      if p.settings.do_pt2pt_stats_report
      then some (update_pt2pt_stats d.op (d.end - d.begin) d.mess_size d.comm_size p)
      else some p
]

-- What follows the call of the `PMPI_` function.
unfoldable pub finish : Details → Profiler → Option Profiler
finish d p =
    if p.enabled
    then histogram_stats d (if ltb d.end d.begin then p else update_callsite_stats p (event d p))
    else some p

mutual
  pub data Call : Type 0 where
    call : Details → Calls → Call

  pub data Calls : Type 0 where
    done : Calls
    next : Call → Calls → Calls

-- `mpiPi.enabled = enabledState`, and the rest of the wrapper
abbrev pub resume : Details → Profiler → Option Profiler → Option Profiler
resume d p none = none
resume d p (some q) = finish d (record q { enabled = p.enabled })

abbrev pub and_then : Option Profiler → (Profiler → Option Profiler) → Option Profiler
and_then none f = none
and_then (some q) f = f q

-- A wrapper, and wrappers one after the other.
unfoldable mutual
  pub run_call : Call → Profiler → Option Profiler
  run_call (call d nested) p = resume d p (run_calls nested (record p { enabled = false }))

  pub run_calls : Calls → Profiler → Option Profiler
  run_calls done p = some p
  run_calls (next c cs) p = and_then (run_call c p) (λ q. run_calls cs q)
