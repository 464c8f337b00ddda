-- ===== src/Tests/WrapperRuns.antt =====
-- wrappers.c, record_stack.c: a broadcast that the library carries out by two sends.
use mpi_pv.Prelude.{
  keep, ℕ, ◌≡◌, refl, true, false, ◌&&◌, Option, none, some, List, [], ◌∷◌, ◌++◌, arith, All, min,
  length, map, replicate, if◌then◌else◌,
}
use mpi_pv.Hash.{ok, lookup, find, bucket, table_index, insert, h_write, write_first}
use mpi_pv.Hash.Upsert.{find_or_insert}
use mpi_pv.Callsite.{CallsiteStats, pc_hashkey, pc_comparator, express, compare_pcs, xor_pcs}
use mpi_pv.State.{Profiler, default_settings}
use mpi_pv.Histogram.{get_histogram_bin, bin_loop, init_histogram, update_collective_stats}
use mpi_pv.Task.{copy_pcs, new_record, is_counted, account, update_callsite_stats, update_all}
use mpi_pv.Wrappers.{
  Calls, call, done, next, traced, event, collective_stats, histogram_stats, finish, run_call,
  run_calls,
}
use mpi_pv.Wrappers.Nested.{events, SameButCells, run_calls-events}
use mpi_pv.Wrappers.Instances.{
  Arguments, typed_size, collective_data, pt2pt_data, mpi_bcast, mpi_send, histogram_wrappers,
}
use mpi_pv.Wrappers.Bounds.{InArray, histogram_wrappers-InArray}
use mpi_pv.Stack.{drop, called_from, record_frames, record_trace_back}
use mpi_pv.Stack.Walk.{padded, record_trace_back-frames}
use mpi_pv.Wrappers.Whole.{run_calls-Summarises}
use mpi_pv.Options.{Parsed, with_argument, apply_options, apply_option, apply_argument, configured}
use mpi_pv.Prelude.Int.{pos}
use mpi_pv.Init.{init}
use mpi_pv.Task.Refine.{at_site, Summarises}
use mpi_pv.Tests.TaskRuns.{fresh}

abbrev pub arguments : Arguments
arguments = record {
  begin = 100;
  end = 130;
  call_stack = 64 ∷ [];
  comm_size = 4;
  type_size = some 8;
  count = 5;
}

abbrev send : Calls → Calls
send rest = next (call (mpi_send arguments) done) rest

abbrev broadcast : Calls
broadcast = next (call (mpi_bcast arguments) (send (send done))) done

run_calls-events_example :
    (q : Profiler) × (run_calls broadcast fresh ≡ some q)
    × SameButCells (update_all fresh (events broadcast fresh)) q
unfolding mpi_bcast collective_data
run_calls-events_example = run_calls-events broadcast fresh (omega arith, tt) refl

histogram_wrappers-InArray_example : All (λ wrapper. InArray (wrapper arguments)) histogram_wrappers
unfolding typed_size
histogram_wrappers-InArray_example =
    histogram_wrappers-InArray arguments (omega arith) (omega arith)

-- Two frames of the profiler, and three of the program, of which the second has no address.
abbrev frames : List (Option ℕ)
frames = some 1 ∷ some 2 ∷ some 65 ∷ none ∷ some 81 ∷ []

record_trace_back-frames_example : record_trace_back false true true frames 4 (replicate 8 0) ≡ (
    if true && true
    then (let user = drop (if false then 1 else 2) frames in
        (min 4 (length user), padded 4 (map called_from user) ++ drop 4 (replicate 8 0)))
    else (0, replicate 8 0))
record_trace_back-frames_example =
    record_trace_back-frames false true true frames 4 (replicate 8 0) (omega arith)

traced_back :
    record_trace_back false true true frames 4 (replicate 8 0)
    ≡ (3, 64 ∷ 0 ∷ 80 ∷ 0 ∷ 0 ∷ 0 ∷ 0 ∷ 0 ∷ [])
unfolding record_trace_back record_frames
traced_back = refl

program : Unit {0}
unfolding default_settings lookup find bucket table_index insert h_write write_first find_or_insert
    pc_hashkey pc_comparator express compare_pcs xor_pcs copy_pcs new_record is_counted account
    update_callsite_stats update_all typed_size collective_data pt2pt_data mpi_bcast mpi_send traced
    event collective_stats histogram_stats finish run_call get_histogram_bin bin_loop init_histogram
    update_collective_stats
program = tt

-- One record: the broadcast of 40 bytes that took 30.
abbrev recorded : Option (ℕ × ℕ × ℕ × ℕ)
recorded = elim (run_calls broadcast fresh) [
  | none ↦ none
  | some q ↦
      elim (lookup q.task_callsite_stats (new_record 1 (event (mpi_bcast arguments) fresh))) [
        | none ↦ none
        | some s ↦ some (q.task_callsite_stats.count, s.count, s.cumulative_time, s.max_data_sent)
      ]
]

broadcast_recorded : recorded ≡ some (1, 1, 30, 40)
unfolding program
broadcast_recorded = refl

-- No options but the stack depth of 2.
abbrev options : List Parsed
options = with_argument 0x6b (0x32 ∷ []) (pos 2) (pos 2000000) ∷ []

options-on : (apply_options options (configured [] none)).enabled ≡ true
unfolding apply_options apply_option apply_argument configured
options-on = refl

run_calls-Summarises_example :
    (p : Profiler) × (init true true 0 [] none options 90 ≡ ok p)
    × ((q : Profiler) × (run_calls broadcast p ≡ some q)
        × ((k : CallsiteStats)
            → Summarises p.settings.message_count_threshold p.settings.stack_depth
                (keep (at_site p.settings.stack_depth k) (events broadcast p))
                (lookup q.task_callsite_stats k)))
unfolding mpi_bcast collective_data
run_calls-Summarises_example =
    run_calls-Summarises 0 90 [] none options broadcast options-on (omega arith, tt)
