-- ===== src/Tests/MergeRuns.antt =====
-- mpiPi.c: two tasks with one call site each in common, merged by the collector.
use mathlib.Core.List.{flatten}
use mpi_pv.Prelude.{
  All, ◌≤◌, length, ℕ, ◌+◌, ◌≡◌, ◌↔◌, refl, ◌++◌, true, Option, none, some, List, [], ◌∷◌, arith,
  keep, ◌==◌, if◌then◌else◌,
}
use mpi_pv.Hash.{HashTable, ok, lookup}
use mpi_pv.Hash.Chain.{same}
use mpi_pv.Hash.Invariant.{IsValid, h_open-IsValid}
use mpi_pv.Hash.Gather.{entries}
use mpi_pv.Hash.Grouped.{Holds}
use mpi_pv.Callsite.{
  CallsiteStats, src_hashkey, src_comparator, src_id_hashkey, src_id_comparator, mpi_id_hashkey,
  op_comparator,
}
use mpi_pv.Callsite.Keys.{Total}
use mpi_pv.State.{default_settings, no_totals}
use mpi_pv.Task.{new_record}
use mpi_pv.Sources.{Location, Sources}
use mpi_pv.Sources.Assign.{IsSources}
use mpi_pv.Sources.Unique.{opened-IsSources, query, query_all, stack_of, query-csid}
use mpi_pv.Merge.{
  Before, Collector, start, lookup_settings, insert_all, merge_results, new_op, insert_mpi_records,
}
use mpi_pv.Merge.Sums.{Totalled}
use mpi_pv.Merge.Groups.{GroupOf, all_ranks, queried, insert_all-GroupOf}
use mpi_pv.Merge.Ops.{insert_mpi_records-GroupOf}
use mpi_pv.Merge.SiteData.{KeptTimes, insert_all-KeptTimes}
use mpi_pv.Merge.Sites.{pairs, stack_at, IsReady, one_record_iff}
use mpi_pv.Merge.Gathered.{empties, opened_sources, merge_results-GroupOf}
use mpi_pv.Tests.TaskRuns.{call}

-- Every odd address is unknown.
abbrev find_src_loc : ℕ → Option Location
find_src_loc pc =
    if pc == 65
    then none
    else some (record { filename = some (0x61 ∷ []); functname = none; lineno = pc })

abbrev sources : Sources
sources = opened_sources 256 1

sources-IsSources : IsSources find_src_loc true 1 sources
sources-IsSources = opened-IsSources find_src_loc true 1 256 (omega arith)

-- A record of one call from the address `pc` by the task `rank`.
abbrev site : ℕ → ℕ → CallsiteStats
site rank pc = record (new_record 1 (call pc 0 0)) {
  rank = rank;
  count = 1;
  cumulative_time = 10 + rank;
}

query-csid_example :
    let (st₁, p') = query find_src_loc true 1 sources (site 0 64) in
    let (_, q') =
      query find_src_loc true 1 (query_all find_src_loc true 1 st₁ (site 0 65 ∷ [])) (site 1 64) in
    (p'.csid ≡ q'.csid)
    ↔ (stack_of find_src_loc true 1 (site 0 64) ≡ stack_of find_src_loc true 1 (site 1 64))
query-csid_example =
    query-csid find_src_loc true 1 sources (site 0 64) (site 0 65 ∷ []) (site 1 64)
      sources-IsSources (ground arith)

abbrev before : Before
before = record {
  size = 2;
  settings = default_settings;
  sources = none;
  global_task_mpi_time = 0 ∷ 0 ∷ [];
  totals = no_totals;
}

abbrev collector : Collector
collector = start before (lookup_settings true default_settings) sources (empties 256)

abbrev own : List CallsiteStats
own = site 0 64 ∷ site 0 65 ∷ []

abbrev arrivals : List (List CallsiteStats)
arrivals = (site 1 64 ∷ []) ∷ []

agg-Holds : Holds src_id_hashkey src_id_comparator collector.global_callsite_stats_agg
agg-Holds = record {
  hash = refl;
  comparator = refl;
  valid = (h_open-IsValid 256 src_id_hashkey src_id_comparator (omega arith)).1;
}

stats-Holds : Holds src_hashkey src_comparator collector.global_callsite_stats
stats-Holds = record {
  hash = refl;
  comparator = refl;
  valid = (h_open-IsValid 256 src_hashkey src_comparator (omega arith)).1;
}

own_records :
    let t = (insert_all find_src_loc own collector).global_callsite_stats_agg in
    Holds src_id_hashkey src_id_comparator t
    × GroupOf all_ranks
        (keep (λ q. same src_id_comparator q (site 0 64)) (queried find_src_loc own collector))
        (lookup t (site 0 64))
own_records = insert_all-GroupOf find_src_loc own collector (site 0 64) agg-Holds (
    (h_open-IsValid {Good = Total CallsiteStats} 256 src_id_hashkey src_id_comparator
        (omega arith)).2
      (site 0 64))

merge_results-GroupOf_example :
    (st : Sources) × (let c =
        start before
          (lookup_settings true before.settings)
          st
          (empties before.settings.table_size) in
      let ps = own ++ flatten arrivals in
      let d = insert_all find_src_loc ps c in
      (merge_results find_src_loc true true before own arrivals ≡ ok (some d))
      × Totalled c.totals ps d.totals
      × ((k : CallsiteStats)
          → GroupOf all_ranks
              (keep (λ q. same src_id_comparator q k) (queried find_src_loc ps c))
              (lookup d.global_callsite_stats_agg k)))
unfolding default_settings
merge_results-GroupOf_example =
    merge_results-GroupOf find_src_loc true before own arrivals (omega arith) (omega arith)

abbrev merged : HashTable CallsiteStats
merged = (insert_all find_src_loc own collector).global_callsite_stats_agg

merged-IsValid : IsValid (Total CallsiteStats) merged
merged-IsValid = own_records.0.valid

abbrev unsorted : List CallsiteStats → List CallsiteStats
unsorted av = av

insert_mpi_records-GroupOf_example :
    (t : HashTable CallsiteStats) × (insert_mpi_records unsorted 256 merged ≡ ok t)
    × Holds mpi_id_hashkey op_comparator t
    × ((k : CallsiteStats)
        → GroupOf new_op
            (keep (λ q. same op_comparator q k) (unsorted (entries merged)))
            (lookup t k))
insert_mpi_records-GroupOf_example =
    insert_mpi_records-GroupOf unsorted 256 merged (omega arith) merged-IsValid

abbrev first_group : List CallsiteStats
first_group =
    keep (λ q. same src_id_comparator q (site 0 64))
      (queried find_src_loc (site 0 64 ∷ []) collector)

first_group_few : length first_group ≤ 2
first_group_few = ground arith

insert_all-KeptTimes_example : KeptTimes 2 first_group (
    lookup
      (insert_all find_src_loc (site 0 64 ∷ []) collector).global_callsite_stats_agg
      (site 0 64))
unfolding default_settings
insert_all-KeptTimes_example =
    insert_all-KeptTimes find_src_loc (site 0 64 ∷ []) collector (site 0 64) refl agg-Holds
      ((h_open-IsValid {Good = Total CallsiteStats} 256 src_id_hashkey src_id_comparator
          (omega arith)).2
        (site 0 64))
      first_group_few

collector-IsReady : IsReady find_src_loc collector
unfolding default_settings
collector-IsReady = sources-IsSources

one_record_iff_example :
    All
      (λ a.
        All
          (λ b. (same src_id_comparator a.1 b.1 ≡ true) ↔ (
            (a.0.op ≡ b.0.op)
            × (stack_at find_src_loc collector a.0 ≡ stack_at find_src_loc collector b.0)))
          (pairs find_src_loc own collector))
      (pairs find_src_loc own collector)
unfolding default_settings
one_record_iff_example = one_record_iff find_src_loc own collector collector-IsReady (ground arith)
