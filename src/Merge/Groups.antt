-- ===== src/Merge/Groups.antt =====
-- mpiPi.c: the collector's tables group the records of all tasks.
use mpi_pv.Prelude.{
  ℕ, ◌≡◌, refl, ap, ◌∙◌, Bool, true, false, Option, none, some, List, [], ◌∷◌, if◌then◌else◌, keep,
}
use mpi_pv.Hash.{lookup}
use mpi_pv.Hash.Chain.{same}
use mpi_pv.Hash.Upsert.{insert_or_write}
use mpi_pv.Hash.Grouped.{upsert_all, grouped, IsMerge, Holds, lookup-upsert_all}
use mpi_pv.Callsite.{
  CallsiteStats, uint_max, src_hashkey, src_comparator, src_id_hashkey, src_id_comparator,
}
use mpi_pv.Callsite.Keys.{callsite-IsKey}
use mpi_pv.Sources.{Location}
use mpi_pv.Merge.{
  Collector, merge_individual, new_aggregate, merge_aggregate, keep_same, insert_queried, query,
  insert_callsite_records, insert_all,
}
use mpi_pv.Merge.Sums.{Merged, Merged-nil, Merged-cons}

-- Only what a record accumulates counts for `Merged`.
resite :
    (a s : CallsiteStats) (ps : List CallsiteStats) (times : List ℕ) (n : ℕ)
    → Merged (record a { site_data = times; site_data_idx = n }) ps s
    → Merged a ps s
resite a s ps times n h = record {
  count = h.count;
  time = h.time;
  squares = h.squares;
  longest = h.longest;
  shortest = h.shortest;
  sent = h.sent;
  most_sent = h.most_sent;
  least_sent = h.least_sent;
  io = h.io;
  most_io = h.most_io;
  least_io = h.least_io;
  rma = h.rma;
  rma_extremes = h.rma_extremes;
  messages = h.messages;
  site = h.site;
}

individual-IsMerge : IsMerge keep_same merge_individual src_hashkey src_comparator
unfolding merge_individual src_comparator src_hashkey
individual-IsMerge = record {
  laws = callsite-IsKey.1;
  keyed = λ p. callsite-IsKey.1.same_refl p tt;
  unseen = λ p. (λ a b. refl, λ a b. refl);
  same_hash = λ p a. refl;
}

pub aggregate-IsMerge :
    (size : ℕ) (cov : Bool)
    → IsMerge (new_aggregate size cov) (merge_aggregate cov) src_id_hashkey src_id_comparator
unfolding merge_individual merge_aggregate new_aggregate src_id_comparator src_id_hashkey
aggregate-IsMerge size true = record {
  laws = callsite-IsKey.2;
  keyed = λ p. callsite-IsKey.2.same_refl p tt;
  unseen = λ p. (λ a b. refl, λ a b. refl);
  same_hash = λ p a. refl;
}
aggregate-IsMerge size false = record {
  laws = callsite-IsKey.2;
  keyed = λ p. callsite-IsKey.2.same_refl p tt;
  unseen = λ p. (λ a b. refl, λ a b. refl);
  same_hash = λ p a. refl;
}

-- What a table holds for a key: nothing if no record has it, and else the records merged.
abbrev pub GroupOf :
    (CallsiteStats → CallsiteStats) → List CallsiteStats → Option CallsiteStats → Type 0
GroupOf new [] o = o ≡ none
GroupOf new (p ∷ ps) o = (s : CallsiteStats) × (o ≡ some s) × Merged (new p) ps s

module _ (new : CallsiteStats → CallsiteStats) (f : CallsiteStats → CallsiteStats → CallsiteStats)
    (step : (a p s : CallsiteStats) (ps : List CallsiteStats)
      → Merged (f p a) ps s
      → Merged a (p ∷ ps) s) where
  grouped-Merged :
      (ps : List CallsiteStats) (a : CallsiteStats)
      → (s : CallsiteStats) × (grouped new f (some a) ps ≡ some s) × Merged a ps s
  grouped-Merged [] a = (a, refl, Merged-nil a)
  grouped-Merged (p ∷ ps) a = let (s, e, h) = grouped-Merged ps (f p a) in (s, e, step a p s ps h)

  pub grouped-GroupOf : (ps : List CallsiteStats) → GroupOf new ps (grouped new f none ps)
  grouped-GroupOf [] = refl
  grouped-GroupOf (p ∷ ps) = grouped-Merged ps (new p)

aggregate_step :
    (cov : Bool) (a p s : CallsiteStats) (ps : List CallsiteStats)
    → Merged (merge_aggregate cov p a) ps s
    → Merged a (p ∷ ps) s
unfolding merge_aggregate
aggregate_step true a p s ps h = Merged-cons a p s ps (resite (merge_individual p a) s ps _ _ h)
aggregate_step false a p s ps h = Merged-cons a p s ps h

abbrev pub all_ranks : CallsiteStats → CallsiteStats
all_ranks p = record p { rank = uint_max }

forget_site :
    (size : ℕ) (cov : Bool) (ps : List CallsiteStats) (o : Option CallsiteStats)
    → GroupOf (new_aggregate size cov) ps o
    → GroupOf all_ranks ps o
unfolding new_aggregate
forget_site size cov [] o h = h
forget_site size true (p ∷ ps) o (s, e, h) = (s, e, resite (all_ranks p) s ps _ _ h)
forget_site size false (p ∷ ps) o h = h

module _ (find_src_loc : ℕ → Option Location) where
  -- The records as `mpiPi_query_src` leaves them, one after the other.
  abbrev pub queried : List CallsiteStats → Collector → List CallsiteStats
  queried [] c = []
  queried (p ∷ ps) c =
      (query find_src_loc p c).1 ∷ queried ps (insert_callsite_records find_src_loc p c)

  pub agg-upsert_all :
      (ps : List CallsiteStats) (c : Collector)
      → (insert_all find_src_loc ps c).global_callsite_stats_agg
        ≡ upsert_all
            (new_aggregate c.size c.settings.calc_cov)
            (merge_aggregate c.settings.calc_cov)
            c.global_callsite_stats_agg
            (queried ps c)
  unfolding insert_all insert_callsite_records insert_queried
  agg-upsert_all [] c = refl
  agg-upsert_all (p ∷ ps) c = agg-upsert_all ps (insert_callsite_records find_src_loc p c)

  stats-upsert_all :
      (ps : List CallsiteStats) (c : Collector)
      → c.settings.collective_report ≡ false
      → (insert_all find_src_loc ps c).global_callsite_stats
        ≡ upsert_all keep_same merge_individual c.global_callsite_stats (queried ps c)
  unfolding insert_all insert_callsite_records insert_queried
  stats-upsert_all [] c e = refl
  stats-upsert_all (p ∷ ps) c e =
      stats-upsert_all ps (insert_callsite_records find_src_loc p c) e
      ∙ ap
          (λ b.
            upsert_all keep_same merge_individual
              (if b
                then c.global_callsite_stats
                else insert_or_write c.global_callsite_stats (query find_src_loc p c).1
                    (keep_same (query find_src_loc p c).1)
                    (merge_individual (query find_src_loc p c).1))
              (queried ps (insert_callsite_records find_src_loc p c)))
          e

  -- Whatever records are inserted, the table of all ranks stays valid, and, if it held nothing for a
  -- call site, then it holds one record for the site, in which all inserted records of that operation
  -- and call site id are merged, of whatever rank, or nothing if there is none.
  pub insert_all-GroupOf :
      (ps : List CallsiteStats) (c : Collector) (k : CallsiteStats)
      → Holds src_id_hashkey src_id_comparator c.global_callsite_stats_agg
      → lookup c.global_callsite_stats_agg k ≡ none
      → let t = (insert_all find_src_loc ps c).global_callsite_stats_agg in
        Holds src_id_hashkey src_id_comparator t
        × GroupOf all_ranks (keep (λ q. same src_id_comparator q k) (queried ps c)) (lookup t k)
  insert_all-GroupOf ps c k h e =
      let new = new_aggregate c.size c.settings.calc_cov in
      let f = merge_aggregate c.settings.calc_cov in
      let (h', reads) =
        lookup-upsert_all new f src_id_hashkey src_id_comparator
          (aggregate-IsMerge c.size c.settings.calc_cov) (queried ps c) c.global_callsite_stats_agg
          h in
      rw (agg-upsert_all ps c) (
        h',
        rw (reads k, e)
            (forget_site c.size c.settings.calc_cov _ _ (
              grouped-GroupOf new f (aggregate_step c.settings.calc_cov)
                (keep (λ q. same src_id_comparator q k) (queried ps c)))),
      )

  -- Without the collective report, the table by rank merges the inserted records of each operation,
  -- call site id and rank in the same way.
  pub insert_all-GroupOf_rank :
      (ps : List CallsiteStats) (c : Collector) (k : CallsiteStats)
      → c.settings.collective_report ≡ false
      → Holds src_hashkey src_comparator c.global_callsite_stats
      → lookup c.global_callsite_stats k ≡ none
      → let t = (insert_all find_src_loc ps c).global_callsite_stats in
        Holds src_hashkey src_comparator t
        × GroupOf keep_same (keep (λ q. same src_comparator q k) (queried ps c)) (lookup t k)
  insert_all-GroupOf_rank ps c k off h e =
      let (h', reads) =
        lookup-upsert_all keep_same merge_individual src_hashkey src_comparator individual-IsMerge
          (queried ps c) c.global_callsite_stats h in
      rw (stats-upsert_all ps c off) (
        h',
        rw (reads k, e)
            (grouped-GroupOf keep_same merge_individual Merged-cons
              (keep (λ q. same src_comparator q k) (queried ps c))),
      )
