-- ===== src/Merge/Ops.antt =====
-- mpiPi.c: `mpiPi_insert_MPI_records` groups the call sites by operation.
use mpi_pv.Prelude.{ℕ, ◌≤◌, ◌≡◌, refl, List, [], ◌∷◌, keep}
use mpi_pv.Hash.{ok, HashTable, lookup}
use mpi_pv.Hash.Chain.{same}
use mpi_pv.Hash.Invariant.{IsValid, empty_table, h_open-IsValid}
use mpi_pv.Hash.Gather.{entries, gather-entries}
use mpi_pv.Hash.Grouped.{upsert_all, IsMerge, Holds, lookup-upsert_all}
use mpi_pv.Callsite.{CallsiteStats, mpi_id_hashkey, op_comparator}
use mpi_pv.Callsite.Keys.{callsite-IsKey, Total}
use mpi_pv.Merge.{merge_individual, new_op, insert_ops, insert_mpi_records}
use mpi_pv.Merge.Sums.{Merged-cons}
use mpi_pv.Merge.Groups.{GroupOf, grouped-GroupOf}

op-IsMerge : IsMerge new_op merge_individual mpi_id_hashkey op_comparator
unfolding merge_individual op_comparator mpi_id_hashkey
op-IsMerge = record {
  laws = callsite-IsKey.3;
  keyed = λ p. callsite-IsKey.3.same_refl p tt;
  unseen = λ p. (λ a b. refl, λ a b. refl);
  same_hash = λ p a. refl;
}

ops-upsert_all :
    (ps : List CallsiteStats) (t : HashTable CallsiteStats)
    → insert_ops t ps ≡ upsert_all new_op merge_individual t ps
unfolding insert_ops
ops-upsert_all [] t = refl
ops-upsert_all (p ∷ ps) t = ops-upsert_all ps _

-- From any valid table of call sites, whatever the order into which `qsort` brings them: the table of
-- operations is opened and filled without an abort, and holds for each operation one record, with the
-- id of the operation and of no rank, in which the records of the operation are merged.
pub insert_mpi_records-GroupOf :
    (sort : List CallsiteStats → List CallsiteStats) (n : ℕ) (agg : HashTable CallsiteStats)
    → 2 ≤ n
    → IsValid (Total CallsiteStats) agg
    → (t : HashTable CallsiteStats) × (insert_mpi_records sort n agg ≡ ok t)
      × Holds mpi_id_hashkey op_comparator t
      × ((k : CallsiteStats)
          → GroupOf new_op (keep (λ q. same op_comparator q k) (sort (entries agg))) (lookup t k))
unfolding insert_mpi_records
insert_mpi_records-GroupOf sort n agg two v =
    let (opens, valid, empty) =
      h_open-IsValid {Good = Total CallsiteStats} n mpi_id_hashkey op_comparator two in
    let t = empty_table n mpi_id_hashkey op_comparator in
    let (gathers, _) = gather-entries agg v in
    let (h, reads) =
      lookup-upsert_all new_op merge_individual mpi_id_hashkey op_comparator op-IsMerge
        (sort (entries agg)) t (record { hash = refl; comparator = refl; valid = valid }) in
    (
      upsert_all new_op merge_individual t (sort (entries agg)),
      rw (opens, gathers, ops-upsert_all (sort (entries agg)) t),
      h,
      λ k.
          rw (reads k, empty k)
            (grouped-GroupOf new_op merge_individual Merged-cons
              (keep (λ q. same op_comparator q k) (sort (entries agg)))),
    )
