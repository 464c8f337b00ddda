-- ===== src/Hash.antt =====
-- mpiP-hash.c, mpiP-hash.h: the generic chained hash table.
-- A table owns its buckets as lists, first entry first. An entry is the element it points to; a
-- write through a pointer that `h_search` returned is `h_write`. `Abort` ends a run with its reason.
pub mod Chain
pub mod Invariant
pub mod Lookup
pub mod Gather
pub mod Upsert
pub mod Grouped
pub mod Rewrite
use mpi_pv.Prelude.{
  ℕ, zero, suc, ◌+◌, ◌-◌, ◌%◌, Ordering, Bool, true, false, Option, none, some, List, [], ◌∷◌, ◌++◌,
  ltb, if◌then◌else◌, length, get_or, set, replicate,
}

-- The calls of `Abort`, by their messages.
pub data Reason : Type 0 where
  malloc_error table_too_small no_hash_function no_comparator uninitialized null_argument : Reason
  -- a write past the end of the block that `h_gather_data` allocated
  overrun : Reason
  -- a read of the element before the first of an array
  underrun : Reason
  -- in pc_lookup_dwarf.c: a range that overlaps another, an `assert`, a read through NULL, and no
  -- entries below a compilation unit
  overlap failed_assert null_node dwarf_failure : Reason

pub data Run {ℓ} (A : Type ℓ) : Type ℓ where
  ok : A → Run A
  abort : Reason → Run A

infixl 5 ◌>>=◌
abbrev pub ◌>>=◌ {ℓ κ} : {A : Type ℓ} {B : Type κ} → Run A → (A → Run B) → Run B
ok a >>= f = f a
abort e >>= f = abort e

-- `if (p == NULL) Abort (..)`
abbrev pub checked {ℓ} : {A : Type ℓ} → Reason → Option A → Run A
checked e none = abort e
checked e (some a) = ok a

-- `malloc` gives a block or NULL.
abbrev pub allocated : Bool → Run (Unit {0})
allocated true = ok tt
allocated false = abort malloc_error

-- The comparator's result is compared with 0 only.
abbrev pub is_zero : Ordering → Bool
is_zero Ordering.eq = true
is_zero Ordering.lt = false
is_zero Ordering.gt = false

-- `h_t`. `hf` is read as the unsigned number that `h_insert` assigns it to.
pub record HashTable {ℓ} (A : Type ℓ) : Type ℓ where
  pub size : ℕ
  pub count : ℕ
  pub hf : A → ℕ
  pub hc : A → A → Ordering
  pub table : List (List A)

module _ {ℓ} {A : Type ℓ} where
  unfoldable pub h_open :
      Bool → Bool → ℕ → Option (A → ℕ) → Option (A → A → Ordering) → Run (HashTable A)
  h_open ht_block table_block n hash comparator = do
    _ ← allocated ht_block
    _ ← if ltb n 2 then abort table_too_small else ok (tt {0})
    hf ← checked no_hash_function hash
    hc ← checked no_comparator comparator
    _ ← allocated table_block
    ok (record { size = n; count = 0; hf = hf; hc = hc; table = replicate n [] })

  -- The search loop of `h_insert`, `h_search` and `h_delete`.
  unfoldable pub find : (A → A → Ordering) → A → List A → Option A
  find hc key [] = none
  find hc key (x ∷ xs) = if is_zero (hc x key) then some x else find hc key xs

  -- `tableIndex`, and the list that it heads
  unfoldable pub table_index : HashTable A → A → ℕ
  table_index ht key = ht.hf key % ht.size

  unfoldable pub bucket : HashTable A → A → List A
  bucket ht key = get_or ht.table (table_index ht key) []

  -- `h_search` past its checks
  unfoldable pub lookup : HashTable A → A → Option A
  lookup ht key = find ht.hc key (bucket ht key)

  -- `h_insert` past its checks
  unfoldable pub insert : HashTable A → A → ℕ × HashTable A
  insert ht ptr = elim (find ht.hc ptr (bucket ht ptr)) [
    | some old ↦ (1, ht)
    | none ↦ (
      0,
      record ht {
        count = ht.count + 1;
        table = set ht.table (table_index ht ptr) (ptr ∷ bucket ht ptr);
      },
    )
  ]

  -- The loop of `h_delete`: the list with the first match unlinked.
  unfoldable pub unlink : (A → A → Ordering) → A → List A → List A
  unlink hc key [] = []
  unlink hc key (x ∷ xs) = if is_zero (hc x key) then xs else x ∷ unlink hc key xs

  -- `h_delete` past its checks
  unfoldable pub delete : HashTable A → A → Option A × HashTable A
  delete ht key = elim (find ht.hc key (bucket ht key)) [
    | none ↦ (none, ht)
    | some x ↦ (
      some x,
      record ht {
        count = ht.count - 1;
        table = set ht.table (table_index ht key) (unlink ht.hc key (bucket ht key));
      },
    )
  ]

  unfoldable pub h_count : Option (HashTable A) → Run ℕ
  h_count ht = do t ← checked uninitialized ht; ok t.count

  unfoldable pub h_insert : Option (HashTable A) → Bool → Option A → Run (ℕ × HashTable A)
  h_insert ht block ptr = do
    t ← checked uninitialized ht
    _ ← allocated block
    p ← checked null_argument ptr
    ok (insert t p)

  -- `ptr` is the address of the caller's variable; what is stored there is the result.
  unfoldable pub h_search :
      {P : Type 0} → Option (HashTable A) → Option A → Option P → Run (Option A)
  h_search ht key ptr = do
    t ← checked uninitialized ht
    k ← checked null_argument key
    _ ← checked null_argument ptr
    ok (lookup t k)

  unfoldable pub h_delete :
      {P : Type 0} → Option (HashTable A) → Option A → Option P → Run (Option A × HashTable A)
  h_delete ht key ptr = do
    t ← checked uninitialized ht
    _ ← checked null_argument ptr
    k ← checked null_argument key
    ok (delete t k)

  -- `(*ptr)[*ac] = het_index->ptr; (*ac)++;` over one list, in a block of `cap` pointers
  unfoldable pub gather_list : ℕ → List A → List A → Run (List A)
  gather_list cap out [] = ok out
  gather_list cap out (x ∷ xs) =
      let rest = gather_list cap (out ++ (x ∷ [])) xs in
      if ltb (length out) cap then rest else abort overrun

  -- `for (i = 0; i < ht->size; i++)`, with the rounds left first
  unfoldable pub gather_from : ℕ → ℕ → ℕ → List (List A) → List A → Run (List A)
  gather_from zero i cap table out = ok out
  gather_from (suc left) i cap table out =
      gather_list cap out (get_or table i []) >>= gather_from left (suc i) cap table

  -- `*ac` is the length of what was written.
  unfoldable pub gather : HashTable A → Run (ℕ × List A)
  gather ht = do out ← gather_from ht.size 0 ht.count ht.table []; ok (length out, out)

  unfoldable pub h_gather_data : {P : Type 0} → Option (HashTable A) → Option P → Run (ℕ × List A)
  h_gather_data ht ptr = do t ← checked uninitialized ht; _ ← checked null_argument ptr; gather t

  -- The caller's write through the pointer that `h_search` stored: the first match is replaced.
  unfoldable pub write_first : (A → A → Ordering) → A → (A → A) → List A → List A
  write_first hc key f [] = []
  write_first hc key f (x ∷ xs) =
      if is_zero (hc x key) then f x ∷ xs else x ∷ write_first hc key f xs

  unfoldable pub h_write : HashTable A → A → (A → A) → HashTable A
  h_write ht key f = record ht {
    table = set ht.table (table_index ht key) (write_first ht.hc key f (bucket ht key));
  }
