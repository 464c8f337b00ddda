-- ===== src/Tests/HashRuns.antt =====
-- mpiP-hash.c at tables of numbers, with four buckets.
use Prim.Native.Nat.{compare}
use mpi_pv.Prelude.{ℕ, ◌+◌, ◌-◌, ◌≡◌, refl, true, none, some, [], ◌∷◌, arith, length}
use mpi_pv.Hash.{
  ok, abort, table_too_small, null_argument, overrun, HashTable, h_open, find, table_index, bucket,
  lookup, insert, unlink, delete, h_insert, h_search, h_delete, gather_list, gather_from, gather,
  h_gather_data, write_first, h_write,
}
use mpi_pv.Hash.Chain.{IsKey, Distinct}
use mpi_pv.Hash.Invariant.{IsValid, empty_table, h_open-IsValid, insert-IsValid, h_write-IsValid}
use mpi_pv.Hash.Lookup.{lookup-insert, lookup-delete, old_or_new, refusal}
use mpi_pv.Hash.Gather.{entries, gather-entries, gather-lookup}

abbrev Any : ℕ → Type 0
Any n = Unit

abbrev itself : ℕ → ℕ
itself n = n

number_key : IsKey itself compare Any
number_key = record {
  same_refl = λ a g. ground arith;
  same_symm = λ a b ga gb e. ground arith;
  same_trans = λ a b c ga gb gc e f. ground arith;
  hf-same = λ a b ga gb e. ground arith;
}

abbrev none_yet : HashTable ℕ
none_yet = empty_table 4 itself compare

none_yet-IsValid : IsValid Any none_yet
none_yet-IsValid = (h_open-IsValid 4 itself compare (omega arith)).1

program : Unit {0}
unfolding h_open find table_index bucket lookup insert unlink delete h_insert h_search h_delete
    gather_list gather_from gather h_gather_data write_first h_write
program = tt

abbrev five : HashTable ℕ
five = (insert none_yet 5).1

five-IsValid : IsValid Any five
five-IsValid = insert-IsValid none_yet none_yet-IsValid 5 tt

abbrev two_entries : HashTable ℕ
two_entries = (insert five 9).1

insert-IsValid_example : IsValid Any two_entries
insert-IsValid_example = insert-IsValid five five-IsValid 9 tt

h_write-IsValid_example : IsValid Any (h_write five 5 itself)
h_write-IsValid_example =
    h_write-IsValid five five-IsValid 5 itself (λ a b. refl, λ a b. refl) (λ a g. g) (λ a. refl)

five_key : IsKey five.hf five.hc Any
unfolding insert find bucket table_index
five_key = number_key

lookup-insert_example :
    (lookup (insert five 9).1 9 ≡ some (old_or_new (lookup five 9) 9))
    × ((insert five 9).0 ≡ refusal (lookup five 9))
    × ((insert five 9).1.count + refusal (lookup five 9) ≡ five.count + 1)
unfolding insert find bucket table_index
lookup-insert_example = lookup-insert five five-IsValid five_key 9 9 tt tt

lookup-delete_example :
    (lookup (delete five 5).1 5 ≡ none)
    × ((delete five 5).0 ≡ lookup five 5)
    × ((delete five 5).1.count ≡ five.count - refusal (lookup five 5))
unfolding insert find bucket table_index
lookup-delete_example = lookup-delete five five-IsValid five_key 5 5 tt tt

gather-entries_example :
    (gather two_entries ≡ ok (two_entries.count, entries two_entries))
    × (length (entries two_entries) ≡ two_entries.count)
gather-entries_example = gather-entries two_entries insert-IsValid_example

gather-lookup_example :
    Distinct five.hc (entries five) × (find five.hc 5 (entries five) ≡ lookup five 5)
gather-lookup_example = gather-lookup five five-IsValid five_key 5 tt

-- 5 and 9 share a bucket; 5 is refused a second time; NULL and a small size abort.
runs :
    (gather two_entries ≡ ok (2, 9 ∷ 5 ∷ []))
    × ((insert two_entries 5).0 ≡ 1)
    × (lookup two_entries 5 ≡ some 5)
    × (lookup two_entries 1 ≡ none)
    × (gather (delete two_entries 5).1 ≡ ok (1, 9 ∷ []))
    × (h_insert (some five) true none ≡ abort null_argument)
    × (h_open true true 1 (some itself) (some compare) ≡ abort table_too_small)
    × (h_gather_data (some two_entries) (some (tt {0})) ≡ ok (2, 9 ∷ 5 ∷ []))
    × (gather_list {A = ℕ} 1 [] (1 ∷ 2 ∷ []) ≡ abort overrun)
unfolding program
runs = (refl, refl, refl, refl, refl, refl, refl, refl, refl)
