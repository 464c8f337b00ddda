-- ===== src/Merge/Gathered.antt =====
-- mpiPi.c: the collector's merge as a whole.
use mathlib.Core.List.{flatten}
use mpi_pv.Prelude.{
  ℕ, zero, suc, ◌+◌, ◌≤◌, ◌<◌, ◌≡◌, refl, sym, ap, ◌∙◌, Bool, true, false, Option, none, some, List,
  [], ◌∷◌, ◌++◌, arith, not_ltb, ◌==◌, if◌then◌else◌, length, get_or, set, keep, Bool-cases, inl,
  inr, get_or-set, length-set, ==_iff,
}
use mpi_pv.Hash.{ok, lookup, HashTable}
use mpi_pv.Hash.Chain.{same}
use mpi_pv.Hash.Invariant.{empty_table, h_open-IsValid}
use mpi_pv.Callsite.{CallsiteStats, src_hashkey, src_comparator, src_id_hashkey, src_id_comparator}
use mpi_pv.Callsite.Keys.{Total}
use mpi_pv.State.{Totals}
use mpi_pv.Sources.{
  Location, Sources, PcEntry, SrcEntry, pc_cache_hashkey, pc_cache_comparator, src_id_cache_hashkey,
  src_id_cache_comparator,
}
use mpi_pv.Sources.Ids.{query_src-same}
use mpi_pv.Merge.{
  Collector, add_totals, insert_queried, query, insert_callsite_records, insert_all, receive_all,
  total_count, max_count, open_tables, open_sources, Before, lookup_settings, start,
  insert_gathered, merge_results,
}
use mpi_pv.Merge.Sums.{sum_if, Totalled, Totalled-nil, Totalled-cons}
use mpi_pv.Merge.Groups.{GroupOf, all_ranks, queried, insert_all-GroupOf}

get_or-set_other :
    (xs : List ℕ) (i j v : ℕ) → (i == j) ≡ false → get_or (set xs i v) j 0 ≡ get_or xs j 0
get_or-set_other [] i j v e = refl
get_or-set_other (x ∷ xs) zero zero v e = ground arith
get_or-set_other (x ∷ xs) zero (suc j) v e = refl
get_or-set_other (x ∷ xs) (suc i) zero v e = refl
get_or-set_other (x ∷ xs) (suc i) (suc j) v e = get_or-set_other xs i j v (ground arith)

added_at :
    (xs : List ℕ) (i j n : ℕ)
    → j < length xs
    → get_or (set xs i (get_or xs i 0 + n)) j 0 ≡ get_or xs j 0 + (if i == j then n else 0)
added_at xs i j n h = elim (Bool-cases (i == j)) [
  | inr e ↦ rw (e, get_or-set_other xs i j (get_or xs i 0 + n) e) (omega arith)
  | inl e ↦
      let q = (==_iff i j).0 e in
      rw (get_or-set xs i j (get_or xs i 0 + n) 0 (omega (arith, q)), e) (rw q)
]

-- The two tables that a merge opens.
abbrev pub empties : ℕ → HashTable CallsiteStats × HashTable CallsiteStats
empties n =
    (empty_table n src_hashkey src_comparator, empty_table n src_id_hashkey src_id_comparator)

open_tables_lem : (n : ℕ) → 2 ≤ n → open_tables n ≡ ok (empties n)
unfolding open_tables
open_tables_lem n h = rw (
  (h_open-IsValid {Good = Total CallsiteStats} n src_hashkey src_comparator h).0,
  (h_open-IsValid {Good = Total CallsiteStats} n src_id_hashkey src_id_comparator h).0,
)

-- The caches of the first merge.
abbrev pub opened_sources : ℕ → ℕ → Sources
opened_sources n depth = record {
  pc_cache = empty_table n pc_cache_hashkey pc_cache_comparator;
  src_id_cache = empty_table n (src_id_cache_hashkey depth) (src_id_cache_comparator depth);
  src_id_counter = 1;
}

open_sources_lem :
    (n depth : ℕ) (o : Option Sources) → 2 ≤ n → (st : Sources) × (open_sources n depth o ≡ ok st)
unfolding open_sources
open_sources_lem n depth (some st) h = (st, refl)
open_sources_lem n depth none h = (
  opened_sources n depth,
  rw (
    (h_open-IsValid {Good = Total PcEntry} n pc_cache_hashkey pc_cache_comparator h).0,
    (h_open-IsValid {Good = Total SrcEntry} n (src_id_cache_hashkey depth)
        (src_id_cache_comparator depth) h).0,
  ),
)

module _ (find_src_loc : ℕ → Option Location) where
  insert_all-append :
      (ps qs : List CallsiteStats) (c : Collector)
      → insert_all find_src_loc (ps ++ qs) c
        ≡ insert_all find_src_loc qs (insert_all find_src_loc ps c)
  unfolding insert_all
  insert_all-append [] qs c = refl
  insert_all-append (p ∷ ps) qs c =
      insert_all-append ps qs (insert_callsite_records find_src_loc p c)

  -- Messages that fit into the buffer are all inserted.
  receive_all_lem :
      (ms : List (List CallsiteStats)) (cap : ℕ) (c : Collector)
      → max_count ms ≤ cap
      → receive_all find_src_loc cap ms c ≡ ok (insert_all find_src_loc (flatten ms) c)
  unfolding receive_all flatten
  receive_all_lem [] cap c h = unfold insert_all in refl
  receive_all_lem (m ∷ ms) cap c h = rw (not_ltb cap (length m) (omega arith)) (
      receive_all_lem ms cap (insert_all find_src_loc m c) (omega arith)
      ∙ ap ok (sym (insert_all-append m (flatten ms) c)))

  query-totals :
      (p : CallsiteStats) (c : Collector) (t : Totals)
      → (add_totals (query find_src_loc p c).1 t ≡ add_totals p t)
        × ((query find_src_loc p c).1.rank ≡ p.rank)
        × ((query find_src_loc p c).1.cumulative_time ≡ p.cumulative_time)
  unfolding add_totals
  query-totals p c t =
      let same_p =
        query_src-same find_src_loc c.settings.stack_depth c.settings.do_lookup c.sources p in
      (
        ap (λ q. add_totals q t) same_p,
        ap (λ (q : CallsiteStats). q.rank) same_p,
        ap (λ (q : CallsiteStats). q.cumulative_time) same_p,
      )

  insert_all-Totalled :
      (ps : List CallsiteStats) (c : Collector)
      → Totalled c.totals ps (insert_all find_src_loc ps c).totals
  unfolding insert_all insert_callsite_records insert_queried
  insert_all-Totalled [] c = Totalled-nil c.totals
  insert_all-Totalled (p ∷ ps) c = Totalled-cons p ps c.totals _ (
      rw (← (query-totals p c c.totals).0)
        (insert_all-Totalled ps (insert_callsite_records find_src_loc p c)))

  -- Whatever records are inserted, the time of each task that has a place in the array grows by the
  -- times of the records of its rank.
  pub insert_all-task_time :
      (ps : List CallsiteStats) (c : Collector) (r : ℕ)
      → r < length c.global_task_mpi_time
      → get_or (insert_all find_src_loc ps c).global_task_mpi_time r 0
        ≡ get_or c.global_task_mpi_time r 0 + sum_if (λ p. p.rank == r) (λ p. p.cumulative_time) ps
  unfolding insert_all insert_callsite_records insert_queried
  insert_all-task_time [] c r h = omega arith
  insert_all-task_time (p ∷ ps) c r h =
      let (_, rank, time) = query-totals p c c.totals in
      let ih =
        insert_all-task_time ps (insert_callsite_records find_src_loc p c) r (rw length-set h) in
      let q = (query find_src_loc p c).1 in
      let here : get_or
            (set c.global_task_mpi_time q.rank
              (get_or c.global_task_mpi_time q.rank 0 + q.cumulative_time))
            r 0
          ≡ get_or c.global_task_mpi_time r 0 + (if p.rank == r then p.cumulative_time else 0) =
        rw (rank, time) (added_at c.global_task_mpi_time p.rank r p.cumulative_time h) in
      ih ∙ ap (λ n. n + sum_if (λ p. p.rank == r) (λ p. p.cumulative_time) ps) here ∙ omega arith

  -- If the tasks have records at all, and the collector gets its buffer and the memory for its tables,
  -- of at least two buckets, then the merge succeeds whatever the order in which the messages arrive: no message
  -- overruns the buffer, every record of every task is inserted, the totals grow by the sums over
  -- these records (the time and the data from 0), and for every operation and call site id the table
  -- of all ranks holds the merge of its records.
  pub merge_results-GroupOf :
      (opened : Bool) (b : Before) (own : List CallsiteStats) (arrivals : List (List CallsiteStats))
      → 2 ≤ b.settings.table_size
      → 1 ≤ total_count (own ∷ arrivals)
      → (st : Sources) × (let c =
            start b (lookup_settings opened b.settings) st (empties b.settings.table_size) in
          let ps = own ++ flatten arrivals in
          let d = insert_all find_src_loc ps c in
          (merge_results find_src_loc opened true b own arrivals ≡ ok (some d))
          × Totalled c.totals ps d.totals
          × ((k : CallsiteStats)
              → GroupOf all_ranks
                  (keep (λ q. same src_id_comparator q k) (queried find_src_loc ps c))
                  (lookup d.global_callsite_stats_agg k)))
  unfolding merge_results insert_gathered
  merge_results-GroupOf opened b own arrivals two some_records =
      let (st, opens) =
        open_sources_lem b.settings.table_size b.settings.stack_depth b.sources two in
      let c = start b (lookup_settings opened b.settings) st (empties b.settings.table_size) in
      let ps = own ++ flatten arrivals in
      let (_, valid, empty) =
        h_open-IsValid {Good = Total CallsiteStats} b.settings.table_size src_id_hashkey
          src_id_comparator two in
      let any : (total_count (own ∷ arrivals) == 0) ≡ false = ground arith in
      let received =
        receive_all_lem arrivals (max_count (own ∷ arrivals)) (insert_all find_src_loc own c)
          (omega arith)
        ∙ ap ok (sym (insert_all-append own (flatten arrivals) c)) in
      (
        st,
        (
          rw (any, open_tables_lem b.settings.table_size two, opens, received),
          insert_all-Totalled ps c,
          λ k.
              (insert_all-GroupOf find_src_loc ps c k
                (record { hash = refl; comparator = refl; valid = valid }) (empty k)).1,
        ),
      )
