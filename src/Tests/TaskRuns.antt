-- ===== src/Tests/TaskRuns.antt =====
-- mpiPi.c: three calls from two call sites, accounted by one task.
use mpi_pv.Prelude.{ℕ, ◌≡◌, refl, true, Option, none, some, List, [], ◌∷◌, arith, keep}
use mpi_pv.Hash.{lookup, find, bucket, table_index, insert, h_write, write_first}
use mpi_pv.Hash.Upsert.{find_or_insert}
use mpi_pv.Hash.Invariant.{empty_table, h_open-IsValid}
use mpi_pv.Callsite.{CallsiteStats, pc_hashkey, pc_comparator, express, compare_pcs, xor_pcs}
use mpi_pv.Callsite.Keys.{Total}
use mpi_pv.State.{Profiler, default_settings, no_totals}
use mpi_pv.Histogram.{init_histogram}
use mpi_pv.Task.{
  Event, copy_pcs, new_record, is_counted, account, update_callsite_stats, update_all,
}
use mpi_pv.Task.Refine.{IsTask, at_site, Summarises, update_all-Summarises}

abbrev pub fresh : Profiler
fresh = record {
  rank = 0;
  settings = default_settings;
  enabled = true;
  enabled_count = 1;
  start_time = 100;
  end_time = 0;
  cumulative_time = 0;
  totals = no_totals;
  task_callsite_stats = empty_table 256 (pc_hashkey 1) (pc_comparator 1);
  coll_comm_histogram = init_histogram 7 32 none;
  coll_size_histogram = init_histogram 7 32 none;
  coll_time_stats = λ x y z. 0;
  pt2pt_comm_histogram = init_histogram 7 32 none;
  pt2pt_size_histogram = init_histogram 7 32 none;
  pt2pt_send_stats = λ x y z. 0;
}

-- A call of the operation 1003 from the address `pc`.
abbrev pub call : ℕ → ℕ → ℕ → Event
call pc dur size = record {
  op = 1003;
  rank = 0;
  pc = pc ∷ [];
  dur = dur;
  send_size = size;
  io_size = 0;
  rma_size = 0;
}

abbrev pub calls : List Event
calls = call 64 5 8 ∷ call 80 1 1 ∷ call 64 3 16 ∷ []

pub fresh-IsTask : IsTask fresh
unfolding default_settings
fresh-IsTask = record {
  hf = refl;
  hc = refl;
  valid = (h_open-IsValid 256 (pc_hashkey 1) (pc_comparator 1) (omega arith)).1;
}

-- The record by which the site at 64 is looked up.
abbrev site : CallsiteStats
site = new_record 1 (call 64 0 0)

site_empty : lookup fresh.task_callsite_stats site ≡ none
site_empty =
    ((h_open-IsValid {Good = Total CallsiteStats} 256 (pc_hashkey 1) (pc_comparator 1)
        (omega arith)).2)
      site

update_all-Summarises_example :
    Summarises fresh.settings.message_count_threshold fresh.settings.stack_depth
      (keep (at_site fresh.settings.stack_depth site) calls)
      (lookup (update_all fresh calls).task_callsite_stats site)
update_all-Summarises_example = update_all-Summarises calls fresh fresh-IsTask refl site site_empty

program : Unit {0}
unfolding default_settings lookup find bucket table_index insert h_write write_first find_or_insert
    pc_hashkey pc_comparator express compare_pcs xor_pcs copy_pcs new_record is_counted account
    update_callsite_stats update_all
program = tt

-- What the task holds for the site at 64: two calls, of 8 units in all, and at most 16 bytes.
abbrev at_64 : Option (ℕ × ℕ × ℕ × ℕ)
at_64 = elim (lookup (update_all fresh calls).task_callsite_stats site) [
  | none ↦ none
  | some s ↦ some (s.count, s.cumulative_time, s.max_data_sent, s.min_dur)
]

site_at_64 : at_64 ≡ some (2, 8, 16, 3)
unfolding program
site_at_64 = refl
