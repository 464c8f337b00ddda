-- ===== src/Hash/Upsert.antt =====
-- mpiPi.c: the two ways in which the profiler fills a table: it searches for a key, inserts a record
-- if there is none, and writes to the record through the pointer that the search gave.
use mpi_pv.Prelude.{◌≡◌, refl, true, none, some, arith, if◌then◌else◌, Option-cases, inl, inr}
use mpi_pv.Hash.{HashTable, find, bucket, lookup, insert, h_write}
use mpi_pv.Hash.Chain.{same, IsKey, Unseen}
use mpi_pv.Hash.Invariant.{IsValid, insert-IsValid, h_write-IsValid}
use mpi_pv.Hash.Lookup.{lookup-insert, lookup-h_write, lookup_congr, old_or_new}

module _ {ℓ} {A : Type ℓ} where
  -- The table with a record under the key: the old one, or else the key itself. `malloc` gives the record
  -- and the entry; without the entry `h_insert` would abort.
  unfoldable pub find_or_insert : HashTable A → A → HashTable A
  find_or_insert ht key = elim (lookup ht key) [ none ↦ (insert ht key).1 | some csp ↦ ht ]

  -- A new record if a search for `key` gives NULL, and else a write to what it gives.
  unfoldable pub insert_or_write : HashTable A → A → A → (A → A) → HashTable A
  insert_or_write ht key new f = elim (lookup ht key) [
    | none ↦ (insert ht new).1
    | some csp ↦ h_write ht key f
  ]

  pub hf-insert : (t : HashTable A) (p : A) → (insert t p).1.hf ≡ t.hf
  unfolding insert
  hf-insert t p = elim (Option-cases (find t.hc p (bucket t p))) [
    | inl e ↦ rw (e, insert)
    | inr (x, e) ↦ rw (e, insert)
  ]

  pub hc-insert : (t : HashTable A) (p : A) → (insert t p).1.hc ≡ t.hc
  unfolding insert
  hc-insert t p = elim (Option-cases (find t.hc p (bucket t p))) [
    | inl e ↦ rw (e, insert)
    | inr (x, e) ↦ rw (e, insert)
  ]

  -- Neither changes the functions that the table was opened with.
  pub functions-find_or_insert :
      (t : HashTable A) (key : A)
      → ((find_or_insert t key).hf ≡ t.hf) × ((find_or_insert t key).hc ≡ t.hc)
  unfolding find_or_insert
  functions-find_or_insert t key = elim (Option-cases (lookup t key)) [
    | inl e ↦ rw (e, find_or_insert) (hf-insert t key, hc-insert t key)
    | inr (x, e) ↦ rw (e, find_or_insert) (refl, refl)
  ]

  pub functions-insert_or_write :
      (t : HashTable A) (key new : A) (f : A → A)
      → ((insert_or_write t key new f).hf ≡ t.hf) × ((insert_or_write t key new f).hc ≡ t.hc)
  unfolding insert_or_write h_write
  functions-insert_or_write t key new f = elim (Option-cases (lookup t key)) [
    | inl e ↦ rw (e, insert_or_write) (hf-insert t new, hc-insert t new)
    | inr (x, e) ↦ rw (e, insert_or_write) (refl, refl)
  ]

module _ {ℓ} {A : Type ℓ} {Good : A → Type 0} (t : HashTable A) (v : IsValid Good t)
    (laws : IsKey t.hf t.hc Good) where
  pub find_or_insert-IsValid : (key : A) → Good key → IsValid Good (find_or_insert t key)
  unfolding find_or_insert
  find_or_insert-IsValid key g = elim (Option-cases (lookup t key)) [
    | inl e ↦ rw (e, find_or_insert) (insert-IsValid t v key g)
    | inr (x, e) ↦ rw (e, find_or_insert) v
  ]

  pub lookup-find_or_insert :
      (key k : A)
      → Good key
      → Good k
      → lookup (find_or_insert t key) k
        ≡ (if same t.hc key k then some (old_or_new (lookup t k) key) else lookup t k)
  unfolding find_or_insert
  lookup-find_or_insert key k gk g' = elim (Option-cases (lookup t key)) [
    | inl e ↦
        rw (e, find_or_insert)
          (ground
            (arith, e, (lookup-insert t v laws key k gk g').0, lookup_congr t v laws key k gk g'))
    | inr (x, e) ↦ rw (e, find_or_insert) (ground (arith, e, lookup_congr t v laws key k gk g'))
  ]

  module _ (key new : A) (f : A → A) (gk : Good key) (gn : Good new)
      (keyed : same t.hc new key ≡ true) (u : Unseen t.hc f) where
    pub insert_or_write-IsValid :
        ((a : A) → Good a → Good (f a))
        → ((a : A) → t.hf (f a) ≡ t.hf a)
        → IsValid Good (insert_or_write t key new f)
    unfolding insert_or_write
    insert_or_write-IsValid keeps same_hash = elim (Option-cases (lookup t key)) [
      | inl e ↦ rw (e, insert_or_write) (insert-IsValid t v new gn)
      | inr (x, e) ↦ rw (e, insert_or_write) (h_write-IsValid t v key f u keeps same_hash)
    ]

    -- The key finds the new record if it found none, and else the written one; any other key finds
    -- what it found before.
    pub lookup-insert_or_write :
        (k : A)
        → Good k
        → lookup (insert_or_write t key new f) k ≡ (
            if same t.hc key k
            then some (elim (lookup t k) [ none ↦ new | some x ↦ f x ])
            else lookup t k)
    unfolding insert_or_write
    lookup-insert_or_write k g' = elim (Option-cases (lookup t key)) [
      | inl e ↦
          rw (e, insert_or_write)
            (ground (
              arith,
              e,
              (lookup-insert t v laws new k gn g').0,
              lookup_congr t v laws key k gk g',
              lookup_congr t v laws new key gn gk keyed,
              laws.same_trans new key k gn gk g' keyed,
              laws.same_symm new key gn gk keyed,
              laws.same_trans key new k gk gn g',
            ))
      | inr (x, e) ↦
          rw (e, insert_or_write)
            (ground (
              arith,
              e,
              lookup-h_write t v laws key k f gk g' u,
              lookup_congr t v laws key k gk g',
            ))
    ]
