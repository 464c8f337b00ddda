-- ===== src/Task.antt =====
-- mpiPi.c: `mpiPi_update_callsite_stats`, by which a task accounts for one MPI call.
pub mod Account
pub mod Refine
use mpi_pv.Prelude.{
  ℕ, zero, suc, ◌+◌, ◌*◌, ◌-◌, min, max, Bool, false, none, List, [], ◌∷◌, ◌++◌, leb, if◌then◌else◌,
  get_or, replicate,
}
use mpi_pv.Prelude.Int.{ℤ, pos, negsuc}
use mpi_pv.Hash.{h_write}
use mpi_pv.Hash.Upsert.{find_or_insert}
use mpi_pv.Callsite.{CallsiteStats, stack_depth_max, stats_cookie, dbl_max}
use mpi_pv.State.{Profiler}

-- The arguments of a call of `mpiPi_update_callsite_stats`.
pub record Event : Type 0 where
  pub op : ℕ
  pub rank : ℕ
  pub pc : List ℕ
  pub dur : ℕ
  pub send_size : ℕ
  pub io_size : ℕ
  pub rma_size : ℕ

-- `for (i = 0; i < MPIP_CALLSITE_STACK_DEPTH; i++) csp->pc[i] = pc[i];`
unfoldable pub copy_pcs : ℕ → ℕ → List ℕ → List ℕ
copy_pcs zero i pc = []
copy_pcs (suc left) i pc = get_or pc i 0 ∷ copy_pcs left (suc i) pc

-- The record that is inserted for a new call site: zeroed, then set. The search key has the same
-- `op`, `rank`, `cookie` and addresses, and the comparator reads no other field of it.
unfoldable pub new_record : ℕ → Event → CallsiteStats
new_record depth e = record {
  op = e.op;
  rank = e.rank;
  csid = 0;
  count = 0;
  cumulative_time = 0;
  cumulative_time_squared = 0;
  max_dur = 0;
  min_dur = dbl_max;
  max_data_sent = 0;
  min_data_sent = dbl_max;
  max_io = 0;
  min_io = dbl_max;
  max_rma = 0;
  min_rma = 0;
  cumulative_data_sent = 0;
  cumulative_io = 0;
  cumulative_rma = 0;
  arbitrary_message_count = 0;
  site_data = [];
  site_data_idx = 0;
  pc = copy_pcs depth 0 e.pc ++ replicate (stack_depth_max - depth) 0;
  filename = replicate stack_depth_max none;
  functname = replicate stack_depth_max [];
  lineno = replicate stack_depth_max 0;
  cookie = stats_cookie;
}

-- `mpiPi.messageCountThreshold > -1 && sendSize >= (double) mpiPi.messageCountThreshold`
unfoldable pub is_counted : ℤ → ℕ → Bool
is_counted (pos threshold) send_size = leb threshold send_size
is_counted (negsuc n) send_size = false

-- The statements from `csp->count++` on.
unfoldable pub account : ℤ → Event → CallsiteStats → CallsiteStats
account threshold e csp = record csp {
  count = csp.count + 1;
  cumulative_time = csp.cumulative_time + e.dur;
  cumulative_time_squared = csp.cumulative_time_squared + e.dur * e.dur;
  max_dur = max csp.max_dur e.dur;
  min_dur = min csp.min_dur e.dur;
  cumulative_data_sent = csp.cumulative_data_sent + e.send_size;
  cumulative_io = csp.cumulative_io + e.io_size;
  cumulative_rma = csp.cumulative_rma + e.rma_size;
  max_data_sent = max csp.max_data_sent e.send_size;
  min_data_sent = min csp.min_data_sent e.send_size;
  max_io = max csp.max_io e.io_size;
  min_io = min csp.min_io e.io_size;
  max_rma = max csp.max_rma e.rma_size;
  min_rma = min csp.min_rma e.rma_size;
  arbitrary_message_count =
      if is_counted threshold e.send_size
      then csp.arbitrary_message_count + 1
      else csp.arbitrary_message_count;
}

unfoldable pub update_callsite_stats : Profiler → Event → Profiler
update_callsite_stats p e =
    if p.enabled
    then (let key = new_record p.settings.stack_depth e in
        record p {
          task_callsite_stats =
              h_write (find_or_insert p.task_callsite_stats key) key
                (account p.settings.message_count_threshold e);
        })
    else p

-- A sequence of calls.
unfoldable pub update_all : Profiler → List Event → Profiler
update_all p [] = p
update_all p (e ∷ es) = update_all (update_callsite_stats p e) es
