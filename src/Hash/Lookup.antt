-- ===== src/Hash/Lookup.antt =====
-- mpiP-hash.c: what a search finds after each of the calls that change a table.
use mathlib.Core.Option
use mpi_pv.Prelude.{
  ℕ, ◌+◌, ◌-◌, ◌≡◌, refl, ◌∙◌, true, Option, none, some, List, ◌∷◌, arith, ◌==◌, ==_iff,
  if◌then◌else◌, Option-cases, inl, inr, set,
}
use mpi_pv.Hash.{
  HashTable, find, table_index, bucket, lookup, insert, unlink, delete, write_first, h_write,
}
use mpi_pv.Hash.Chain.{
  same, IsKey, Once, Unseen, find-same, find-All, find-unlink, find-write_first, find_congr,
  Distinct-Once,
}
use mpi_pv.Hash.Invariant.{IsValid, lookup-set, bucket-Good, bucket-Distinct}

lookup_lem {ℓ} : {A : Type ℓ} (t : HashTable A) (k : A) → lookup t k ≡ find t.hc k (bucket t k)
unfolding lookup
lookup_lem t k = refl

bucket_congr {ℓ} :
    {A : Type ℓ} (t : HashTable A) (a b : A)
    → (table_index t a == table_index t b) ≡ true
    → bucket t a ≡ bucket t b
unfolding bucket
bucket_congr t a b e = rw ((==_iff (table_index t a) (table_index t b)).0 e)

find-bucket_congr {ℓ} :
    {A : Type ℓ} (t : HashTable A) (a b : A)
    → (table_index t a == table_index t b) ≡ true
    → find t.hc b (bucket t a) ≡ find t.hc b (bucket t b)
find-bucket_congr t a b e = rw (bucket_congr t a b e)

-- `1` is the result that refuses a duplicate, `0` that of an insertion.
abbrev pub refusal {ℓ} : {A : Type ℓ} → Option A → ℕ
refusal none = 0
refusal (some x) = 1

-- The entry that is kept under a key: the one that was there, or else the new one.
abbrev pub old_or_new {ℓ} : {A : Type ℓ} → Option A → A → A
old_or_new none p = p
old_or_new (some old) p = old

module _ {ℓ} {A : Type ℓ} {Good : A → Type 0} (t : HashTable A) (v : IsValid Good t)
    (laws : IsKey t.hf t.hc Good) where
  same_index :
      (a b : A)
      → Good a
      → Good b
      → same t.hc a b ≡ true
      → (table_index t a == table_index t b) ≡ true
  unfolding table_index
  same_index a b ga gb e = (==_iff _ _).1 (rw (laws.hf-same a b ga gb e))

  -- A search depends on the key only up to the comparator.
  pub lookup_congr : (a b : A) → Good a → Good b → same t.hc a b ≡ true → lookup t a ≡ lookup t b
  unfolding lookup
  lookup_congr a b ga gb e =
      rw (bucket_congr t a b (same_index a b ga gb e))
        (find_congr laws a b ga gb (bucket t b) (bucket-Good t v b) e)

  -- What a search finds is good and is the key that was sought.
  pub lookup_found : (k x : A) → lookup t k ≡ some x → Good x × (same t.hc x k ≡ true)
  unfolding lookup
  lookup_found k x e =
      (find-All t.hc Good k (bucket t k) x (bucket-Good t v k) e, find-same t.hc k (bucket t k) x e)

  find-bucket :
      (key k : A) (c : List A) (n : ℕ) (r : Option A)
      → Good key
      → Good k
      → find t.hc k c ≡ (if same t.hc key k then r else find t.hc k (bucket t key))
      → lookup (record t { count = n; table = set t.table (table_index t key) c }) k
        ≡ (if same t.hc key k then r else lookup t k)
  find-bucket key k c n r g g' e =
      rw (lookup-set t v key k n c)
        (ground (arith, e, lookup_lem t k, same_index key k g g', find-bucket_congr t key k))

  once : (key : A) → Good key → Once t.hc key (bucket t key)
  once key gk = Distinct-Once laws key gk _ (bucket-Good t v key) (bucket-Distinct t v key)

  -- Insertion into a valid table whose hash function and comparator agree: a search finds under the
  -- new key the entry that was there, or else the new one, and under another key what it found before;
  -- the result tells which, and the count follows it.
  pub lookup-insert :
      (p k : A)
      → Good p
      → Good k
      → (lookup (insert t p).1 k
          ≡ (if same t.hc p k then some (old_or_new (lookup t p) p) else lookup t k))
        × ((insert t p).0 ≡ refusal (lookup t p))
        × ((insert t p).1.count + refusal (lookup t p) ≡ t.count + 1)
  unfolding insert
  lookup-insert p k gp gk = elim (Option-cases (find t.hc p (bucket t p))) [
    | inr (old, e) ↦
        let there : lookup t p ≡ some old = lookup_lem t p ∙ e in
        rw (e, insert) (rw there (ground (arith, there, lookup_congr p k gp gk), refl, omega arith))
    | inl e ↦
        let absent : lookup t p ≡ none = lookup_lem t p ∙ e in
        rw (e, insert)
          (rw absent (
            find-bucket p k (p ∷ bucket t p) _ (some p) gp gk (unfold find in refl),
            refl,
            omega arith,
          ))
  ]

  -- Deletion from a valid table whose hash function and comparator agree: the result is what a search
  -- finds; afterwards the key finds nothing, every other key finds what it found before, and the count
  -- falls by one exactly if there was an entry.
  pub lookup-delete :
      (key k : A)
      → Good key
      → Good k
      → (lookup (delete t key).1 k ≡ (if same t.hc key k then none else lookup t k))
        × ((delete t key).0 ≡ lookup t key)
        × ((delete t key).1.count ≡ t.count - refusal (lookup t key))
  unfolding delete
  lookup-delete key k gk g' = elim (Option-cases (find t.hc key (bucket t key))) [
    | inl e ↦
        let absent : lookup t key ≡ none = lookup_lem t key ∙ e in
        rw (e, delete)
          (rw absent (ground (arith, absent, lookup_congr key k gk g'), refl, omega arith))
    | inr (x, e) ↦
        let there : lookup t key ≡ some x = lookup_lem t key ∙ e in
        rw (e, delete)
          (rw there (
            find-bucket key k (unlink t.hc key (bucket t key)) _ none gk g'
                (find-unlink laws key k gk g' _ (bucket-Good t v key) (once key gk)),
            refl,
            refl,
          ))
  ]

  marked :
      (key k : A) (f : A → A)
      → Good key
      → Good k
      → Option.map (λ x. if same t.hc x key then f x else x) (find t.hc k (bucket t key))
        ≡ (if same t.hc key k then Option.map f (lookup t key) else find t.hc k (bucket t key))
  marked key k f gk g' = elim (Option-cases (find t.hc k (bucket t key))) [
    | inl e ↦ rw e (
        ground (
          arith,
          lookup_lem t key,
          find_congr laws key k gk g' (bucket t key) (bucket-Good t v key),
        ))
    | inr (x, e) ↦
        let gx = find-All t.hc Good k (bucket t key) x (bucket-Good t v key) e in
        let m = find-same t.hc k (bucket t key) x e in
        rw e (
          ground (
            arith,
            lookup_lem t key,
            m,
            laws.same_symm key x gk gx,
            laws.same_symm x key gx gk,
            laws.same_symm x k gx g',
            laws.same_symm key k gk g',
            laws.same_trans key x k gk gx g',
            laws.same_trans x k key gx g' gk,
            find_congr laws key k gk g' (bucket t key) (bucket-Good t v key),
          ))
  ]

  -- A write through a pointer that `h_search` gave, in a valid table whose hash function and
  -- comparator agree and read nothing that is written: the key finds the written entry, and every
  -- other key what it found before.
  pub lookup-h_write :
      (key k : A) (f : A → A)
      → Good key
      → Good k
      → Unseen t.hc f
      → lookup (h_write t key f) k
        ≡ (if same t.hc key k then Option.map f (lookup t key) else lookup t k)
  unfolding h_write
  lookup-h_write key k f gk g' u =
      find-bucket key k (write_first t.hc key f (bucket t key)) t.count
        (Option.map f (lookup t key)) gk g'
        (find-write_first t.hc key k f u _ (once key gk) ∙ marked key k f gk g')
