-- ===== src/Hash/Invariant.antt =====
-- mpiP-hash.c: what holds of a table between calls, and that every call keeps it.
use mathlib.Core.Path.{subst}
use native.Mathlib.Nat.{mod-lt}
use mpi_pv.Prelude.{
  ℕ, zero, suc, ◌+◌, ◌-◌, ◌%◌, ◌≤◌, ◌<◌, ◌≡◌, refl, sym, Ordering, true, none, some, List, [], ◌∷◌,
  arith, ◌==◌, ==_iff, if◌then◌else◌, length, get_or, set, replicate, All, Bool-cases, Option-cases,
  inl, inr, length-set, get_or-set, length-replicate, get_or-replicate, All-map,
}
use mpi_pv.Hash.{
  ok, HashTable, h_open, find, table_index, bucket, lookup, insert, unlink, delete, write_first,
  h_write,
}
use mpi_pv.Hash.Chain.{
  Distinct, Unseen, find-none, length-unlink, length-write_first, All-unlink, Distinct-unlink,
  All-write_first, Distinct-write_first,
}

abbrev pub total {ℓ} : {A : Type ℓ} → List (List A) → ℕ
total [] = 0
total (b ∷ bs) = length b + total bs

total-set {ℓ} :
    {A : Type ℓ} (bs : List (List A)) (i : ℕ) (c : List A)
    → i < length bs
    → total (set bs i c) + length (get_or bs i []) ≡ total bs + length c
total-set [] i c h = absurd (omega arith)
total-set (b ∷ bs) zero c h = omega arith
total-set (b ∷ bs) (suc i) c h = omega (arith, total-set bs i c)

total-replicate {ℓ} : (A : Type ℓ) (n : ℕ) → total {A = A} (replicate n []) ≡ 0
total-replicate A zero = refl
total-replicate A (suc n) = omega (arith, total-replicate A n)

-- An entry is good and stands in the bucket that its hash names.
abbrev pub InPlace {ℓ} : {A : Type ℓ} → (A → ℕ) → ℕ → (A → Type 0) → ℕ → A → Type 0
InPlace hf size Good i x = Good x × (hf x % size ≡ i)

-- The buckets are as many as `size`, hold `count` entries, each in place and no key twice.
pub record IsValid {ℓ} {A : Type ℓ} (Good : A → Type 0) (t : HashTable A) : Type ℓ where
  pub two_le : 2 ≤ t.size
  pub width : length t.table ≡ t.size
  pub counted : t.count ≡ total t.table
  pub placed : (i : ℕ) → All (InPlace t.hf t.size Good i) (get_or t.table i [])
  pub distinct : (i : ℕ) → Distinct t.hc (get_or t.table i [])

table_index_lem {ℓ} : {A : Type ℓ} (t : HashTable A) (k : A) → t.hf k % t.size ≡ table_index t k
unfolding table_index
table_index_lem t k = refl

-- A table of `n` empty buckets.
abbrev pub empty_table {ℓ} : {A : Type ℓ} → ℕ → (A → ℕ) → (A → A → Ordering) → HashTable A
empty_table n hf hc = record { size = n; count = 0; hf = hf; hc = hc; table = replicate n [] }

module _ {ℓ} {A : Type ℓ} {Good : A → Type 0} where
  -- Opening a table of at least two buckets, with a hash function, a comparator and the memory for
  -- it, gives a valid table in which every search fails.
  pub h_open-IsValid :
      (n : ℕ) (hf : A → ℕ) (hc : A → A → Ordering)
      → 2 ≤ n
      → (h_open true true n (some hf) (some hc) ≡ ok (empty_table n hf hc))
        × IsValid Good (empty_table n hf hc)
        × ((k : A) → lookup (empty_table n hf hc) k ≡ none)
  unfolding h_open lookup bucket find
  h_open-IsValid n hf hc h = (
    ground arith,
    record {
      two_le = h;
      width = length-replicate n [];
      counted = sym (total-replicate _ n);
      placed = λ i. rw get_or-replicate tt;
      distinct = λ i. rw get_or-replicate tt;
    },
    λ k. rw get_or-replicate refl,
  )

  module _ (t : HashTable A) (v : IsValid Good t) where
    pub table_index-lt : (k : A) → table_index t k < length t.table
    unfolding table_index
    table_index-lt k = rw v.width (mod-lt (t.hf k) (omega (arith, v.two_le)))

    -- Every call that changes a table replaces one bucket.
    pub set-IsValid :
        (key : A) (n : ℕ) (c : List A)
        → n + length (bucket t key) ≡ t.count + length c
        → All (InPlace t.hf t.size Good (table_index t key)) c
        → Distinct t.hc c
        → IsValid Good (record t { count = n; table = set t.table (table_index t key) c })
    unfolding bucket
    set-IsValid key n c size inplace apart = record {
      two_le = v.two_le;
      width = rw length-set v.width;
      counted =
          omega (arith, v.counted, total-set t.table (table_index t key) c (table_index-lt key));
      placed = λ i.
          rw (get_or-set, table_index-lt key)
            (elim (Bool-cases (table_index t key == i)) [
              | inl e ↦
                  rw e (subst (λ j. All (InPlace t.hf t.size Good j) c) ((==_iff _ i).0 e) inplace)
              | inr e ↦ rw e (v.placed i)
            ]);
      distinct = λ i.
          rw (get_or-set, table_index-lt key)
            (elim (Bool-cases (table_index t key == i)) [
              | inl e ↦ rw e apart
              | inr e ↦ rw e (v.distinct i)
            ]);
    }

    pub lookup-set :
        (key k : A) (n : ℕ) (c : List A)
        → lookup (record t { count = n; table = set t.table (table_index t key) c }) k
          ≡ (if table_index t key == table_index t k then find t.hc k c else lookup t k)
    unfolding lookup bucket table_index
    lookup-set key k n c =
        rw (get_or-set t.table (table_index t key) (table_index t k) c [] (table_index-lt key))
          (elim (Bool-cases (table_index t key == table_index t k)) [ inl e ↦ rw e | inr e ↦ rw e ])

    pub bucket-Good : (k : A) → All Good (bucket t k)
    unfolding bucket
    bucket-Good k = All-map (λ a h. h.0) _ (v.placed (table_index t k))

    pub bucket-Distinct : (k : A) → Distinct t.hc (bucket t k)
    unfolding bucket
    bucket-Distinct k = v.distinct (table_index t k)

    pub bucket-InPlace : (k : A) → All (InPlace t.hf t.size Good (table_index t k)) (bucket t k)
    unfolding bucket
    bucket-InPlace k = v.placed (table_index t k)

    bucket-le-count : (k : A) → length (bucket t k) ≤ t.count
    unfolding bucket
    bucket-le-count k =
        omega (arith, v.counted, total-set t.table (table_index t k) [] (table_index-lt k))

    -- An insertion keeps a table valid: its entries are in their buckets, no key is there twice, and
    -- `count` is their number.
    pub insert-IsValid : (p : A) → Good p → IsValid Good (insert t p).1
    unfolding insert
    insert-IsValid p g = elim (Option-cases (find t.hc p (bucket t p))) [
      | inr (old, e) ↦ rw (e, insert) v
      | inl e ↦
          rw (e, insert)
            (set-IsValid p (t.count + 1) (p ∷ bucket t p) (omega arith)
              ((g, table_index_lem t p), bucket-InPlace p)
              (find-none t.hc p (bucket t p) e, bucket-Distinct p))
    ]

    -- A deletion keeps a table valid, whether or not the key is there.
    pub delete-IsValid : (key : A) → IsValid Good (delete t key).1
    unfolding delete
    delete-IsValid key = elim (Option-cases (find t.hc key (bucket t key))) [
      | inl e ↦ rw (e, delete) v
      | inr (x, e) ↦
          rw (e, delete)
            (set-IsValid key (t.count - 1) (unlink t.hc key (bucket t key))
              (omega (arith, length-unlink t.hc key (bucket t key) x e, bucket-le-count key))
              (All-unlink t.hc _ key _ (bucket-InPlace key))
              (Distinct-unlink t.hc key _ (bucket-Distinct key)))
    ]

    pub h_write-IsValid :
        (key : A) (f : A → A)
        → Unseen t.hc f
        → ((a : A) → Good a → Good (f a))
        → ((a : A) → t.hf (f a) ≡ t.hf a)
        → IsValid Good (h_write t key f)
    unfolding h_write
    h_write-IsValid key f u keeps same_hash =
        set-IsValid key t.count (write_first t.hc key f (bucket t key))
          (omega (arith, length-write_first t.hc key f (bucket t key)))
          (All-write_first t.hc _ key f (λ a h. (keeps a h.0, rw (same_hash a) h.1)) _
            (bucket-InPlace key))
          (Distinct-write_first t.hc key f u _ (bucket-Distinct key))
