-- ===== src/Merge.antt =====
-- mpiPi.c: how the collector merges the records of all tasks.
-- `siteData` is the array that `malloc` gives, here zero until it is set. That `mpiPi_query_src` also
-- writes the source into the collector's own records is left out of its task table: no key reads it.
pub mod Sums
pub mod Groups
pub mod Ops
pub mod Gathered
pub mod SiteData
pub mod Sites
use mpi_pv.Prelude.{
  ℕ, zero, suc, ◌+◌, ◌-◌, max, min, Bool, true, false, Option, none, some, List, [], ◌∷◌, ltb, ◌==◌,
  if◌then◌else◌, get_or, set, replicate, length, ◌++◌,
}
use mpi_pv.Hash.{Run, ok, abort, ◌>>=◌, overrun, HashTable, h_open, gather}
use mpi_pv.Hash.Upsert.{insert_or_write}
use mpi_pv.Callsite.{
  CallsiteStats, mpi_base, uint_max, src_hashkey, src_comparator, src_id_hashkey, src_id_comparator,
  mpi_id_hashkey, op_comparator,
}
use mpi_pv.State.{Settings, Totals}
use mpi_pv.Sources.{
  Location, Sources, query_src, pc_cache_hashkey, pc_cache_comparator, src_id_cache_hashkey,
  src_id_cache_comparator,
}

-- `mpiPi_merge_individual_callsite_records`, with the record that is written to last
unfoldable pub merge_individual : CallsiteStats → CallsiteStats → CallsiteStats
merge_individual b a = record a {
  count = a.count + b.count;
  cumulative_time = a.cumulative_time + b.cumulative_time;
  cumulative_time_squared = a.cumulative_time_squared + b.cumulative_time_squared;
  max_dur = max a.max_dur b.max_dur;
  min_dur = min a.min_dur b.min_dur;
  max_data_sent = max a.max_data_sent b.max_data_sent;
  min_data_sent = min a.min_data_sent b.min_data_sent;
  cumulative_data_sent = a.cumulative_data_sent + b.cumulative_data_sent;
  max_io = max a.max_io b.max_io;
  min_io = min a.min_io b.min_io;
  cumulative_io = a.cumulative_io + b.cumulative_io;
  cumulative_rma = a.cumulative_rma + b.cumulative_rma;
  arbitrary_message_count = a.arbitrary_message_count + b.arbitrary_message_count;
}

-- What the collector keeps besides its task's state. `size` is the number of tasks.
pub record Collector : Type 0 where
  pub size : ℕ
  pub settings : Settings
  pub sources : Sources
  pub global_callsite_stats : HashTable CallsiteStats
  pub global_callsite_stats_agg : HashTable CallsiteStats
  pub global_task_mpi_time : List ℕ
  pub totals : Totals

-- The copy that is inserted, and what is done to one that is there, for all ranks together
unfoldable pub new_aggregate : ℕ → Bool → CallsiteStats → CallsiteStats
new_aggregate size calc_cov p =
    if calc_cov
    then record p {
      rank = uint_max;
      site_data = set (replicate size 0) 0 p.cumulative_time;
      site_data_idx = 1;
    }
    else record p { rank = uint_max }

unfoldable pub merge_aggregate : Bool → CallsiteStats → CallsiteStats → CallsiteStats
merge_aggregate calc_cov p csp =
    if calc_cov
    then record (merge_individual p csp) {
      site_data = set csp.site_data csp.site_data_idx p.cumulative_time;
      site_data_idx = csp.site_data_idx + 1;
    }
    else merge_individual p csp

unfoldable pub add_totals : CallsiteStats → Totals → Totals
add_totals p t =
    let sent = ltb 0 p.cumulative_data_sent in
    record t {
      global_mpi_time = t.global_mpi_time + p.cumulative_time;
      global_mpi_size = t.global_mpi_size + p.cumulative_data_sent;
      global_mpi_io = t.global_mpi_io + p.cumulative_io;
      global_mpi_rma = t.global_mpi_rma + p.cumulative_rma;
      global_time_callsite_count =
          if ltb 0 p.cumulative_time
          then t.global_time_callsite_count + 1
          else t.global_time_callsite_count;
      global_mpi_msize_threshold_count =
          if sent
          then t.global_mpi_msize_threshold_count + p.arbitrary_message_count
          else t.global_mpi_msize_threshold_count;
      global_mpi_sent_count =
          if sent then t.global_mpi_sent_count + p.count else t.global_mpi_sent_count;
    }

abbrev pub keep_same : CallsiteStats → CallsiteStats
keep_same p = p

-- `mpiPi_insert_callsite_records` after `mpiPi_query_src`
unfoldable pub insert_queried : CallsiteStats → Collector → Collector
insert_queried p c = record c {
  global_callsite_stats =
      if c.settings.collective_report
      then c.global_callsite_stats
      else insert_or_write c.global_callsite_stats p (keep_same p) (merge_individual p);
  global_callsite_stats_agg =
      insert_or_write c.global_callsite_stats_agg p (new_aggregate c.size c.settings.calc_cov p)
        (merge_aggregate c.settings.calc_cov p);
  global_task_mpi_time =
      set c.global_task_mpi_time p.rank
        (get_or c.global_task_mpi_time p.rank 0 + p.cumulative_time);
  totals = add_totals p c.totals;
}

module _ (find_src_loc : ℕ → Option Location) where
  abbrev pub query : CallsiteStats → Collector → Sources × CallsiteStats
  query p c = query_src find_src_loc c.settings.stack_depth c.settings.do_lookup c.sources p

  unfoldable pub insert_callsite_records : CallsiteStats → Collector → Collector
  insert_callsite_records p c =
      let (sources, p') = query p c in insert_queried p' (record c { sources = sources })

  -- `for (j = 0; j < count; j++) mpiPi_insert_callsite_records (&(mpiPi.rawCallsiteData[j]));`
  unfoldable pub insert_all : List CallsiteStats → Collector → Collector
  insert_all [] c = c
  insert_all (p ∷ ps) c = insert_all ps (insert_callsite_records p c)

  -- `PMPI_Recv` of one message into the `cap` records of `rawCallsiteData`, and the loop over it
  unfoldable pub receive_all : ℕ → List (List CallsiteStats) → Collector → Run Collector
  receive_all cap [] c = ok c
  receive_all cap (m ∷ ms) c =
      let rest = receive_all cap ms (insert_all m c) in
      if ltb cap (length m) then abort overrun else rest

-- What `PMPI_Allreduce` and `PMPI_Reduce` give for the numbers of records.
abbrev pub total_count : List (List CallsiteStats) → ℕ
total_count [] = 0
total_count (m ∷ ms) = length m + total_count ms

abbrev pub max_count : List (List CallsiteStats) → ℕ
max_count [] = 0
max_count (m ∷ ms) = max (length m) (max_count ms)

-- The two tables that every merge opens, with the memory for them
unfoldable pub open_tables : ℕ → Run (HashTable CallsiteStats × HashTable CallsiteStats)
open_tables table_size = do
  stats ← h_open true true table_size (some src_hashkey) (some src_comparator)
  agg ← h_open true true table_size (some src_id_hashkey) (some src_id_comparator)
  ok (stats, agg)

-- `callsite_pc_cache` and `callsite_src_id_cache`, opened if they are NULL, with the memory for them
unfoldable pub open_sources : ℕ → ℕ → Option Sources → Run Sources
open_sources table_size depth (some st) = ok st
open_sources table_size depth none = do
  pc_cache ← h_open true true table_size (some pc_cache_hashkey) (some pc_cache_comparator)
  src_id_cache ←
      h_open true true table_size (some (src_id_cache_hashkey depth))
        (some (src_id_cache_comparator depth))
  ok (record { pc_cache = pc_cache; src_id_cache = src_id_cache; src_id_counter = 1 })

-- What the collector has when it merges: the caches of an earlier merge, if there was one, the
-- numbers that it keeps, and the time of each task.
pub record Before : Type 0 where
  pub size : ℕ
  pub settings : Settings
  pub sources : Option Sources
  pub global_task_mpi_time : List ℕ
  pub totals : Totals

-- The settings, of which `mpiP_find_src_loc` is not used if the executable was not opened, and the
-- collector as it starts to insert records.
abbrev pub lookup_settings : Bool → Settings → Settings
lookup_settings opened s = record s { do_lookup = if opened then s.do_lookup else false }

abbrev pub start :
    Before → Settings → Sources → HashTable CallsiteStats × HashTable CallsiteStats → Collector
start b settings sources (stats, agg) = record {
  size = b.size;
  settings = settings;
  sources = sources;
  global_callsite_stats = stats;
  global_callsite_stats_agg = agg;
  global_task_mpi_time = b.global_task_mpi_time;
  totals = record b.totals { global_mpi_time = 0; global_mpi_size = 0 };
}

abbrev return_some : Collector → Run (Option Collector)
return_some c = ok (some c)

-- `if (retval == 1) { .. }`: the own records, and then those of the messages
unfoldable pub insert_gathered :
    (ℕ → Option Location)
    → Bool
    → List CallsiteStats
    → List (List CallsiteStats)
    → Collector
    → Run (Option Collector)
insert_gathered find_src_loc buffer own arrivals c =
    if buffer
    then (receive_all find_src_loc (max_count (own ∷ arrivals)) arrivals
          (insert_all find_src_loc own c)
        >>= return_some)
    else ok none

-- `mpiPi_mergeResults` on the collector: `none` with no records to merge or without the buffer.
-- `opened` tells whether the executable was found and `open_bfd_executable` opened it; `own` are the
-- collector's records and `arrivals` the messages of the other tasks in the order in which
-- `PMPI_Probe` finds them.
unfoldable pub merge_results :
    (ℕ → Option Location)
    → Bool
    → Bool
    → Before
    → List CallsiteStats
    → List (List CallsiteStats)
    → Run (Option Collector)
merge_results find_src_loc opened buffer b own arrivals =
    let settings = lookup_settings opened b.settings in
    if total_count (own ∷ arrivals) == 0 then ok none else (do
      tables ← open_tables settings.table_size
      sources ← open_sources settings.table_size settings.stack_depth b.sources
      insert_gathered find_src_loc buffer own arrivals (start b settings sources tables))

-- `mpiPi_insert_MPI_records` on the collector; `sort` is `qsort` by operation, largest first.
abbrev pub new_op : CallsiteStats → CallsiteStats
new_op p = record p { rank = uint_max; csid = p.op - mpi_base }

unfoldable pub insert_ops : HashTable CallsiteStats → List CallsiteStats → HashTable CallsiteStats
insert_ops t [] = t
insert_ops t (p ∷ ps) = insert_ops (insert_or_write t p (new_op p) (merge_individual p)) ps

unfoldable pub insert_mpi_records :
    (List CallsiteStats → List CallsiteStats)
    → ℕ
    → HashTable CallsiteStats
    → Run (HashTable CallsiteStats)
insert_mpi_records sort table_size agg = do
  table ← h_open true true table_size (some mpi_id_hashkey) (some op_comparator)
  (ac, av) ← gather agg
  ok (insert_ops table (sort av))
