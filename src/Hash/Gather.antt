-- ===== src/Hash/Gather.antt =====
-- mpiP-hash.c: `h_gather_data` copies every entry once and never past its block.
use mathlib.Core.List.{flatten, append-nil, append_assoc}
use mpi_pv.Prelude.{
  ℕ, zero, suc, ◌+◌, ◌≤◌, ◌<◌, ◌≡◌, ◌≢◌, refl, sym, ap, ◌∙◌, false, List, [], ◌∷◌, ◌++◌, arith,
  lt→ltb, length, get_or, All, Bool-cases, inl, inr, length-append, All-append, All-map, Ordering,
  ◌%◌,
}
use mpi_pv.Hash.{ok, HashTable, find, lookup, bucket, table_index, gather_list, gather_from, gather}
use mpi_pv.Hash.Chain.{same, IsKey, Distinct, find_absent}
use mpi_pv.Hash.Invariant.{IsValid, InPlace, total}
use mathlib.Core.Path.{subst}

module _ {ℓ} {A : Type ℓ} where
  length-flatten : (bs : List (List A)) → length (flatten bs) ≡ total bs
  unfolding flatten
  length-flatten [] = refl
  length-flatten (b ∷ bs) = omega (arith, length-append b (flatten bs), length-flatten bs)

  gather_list_lem :
      (cap : ℕ) (out xs : List A)
      → length out + length xs ≤ cap
      → gather_list cap out xs ≡ ok (out ++ xs)
  unfolding gather_list
  gather_list_lem cap out [] h = rw append-nil
  gather_list_lem cap out (x ∷ xs) h = rw (lt→ltb (length out) cap (omega arith)) (
      gather_list_lem cap (out ++ (x ∷ [])) xs (omega (arith, length-append out (x ∷ [])))
      ∙ ap ok (append_assoc out (x ∷ []) xs))

  get_or-append :
      (front : List (List A)) (b : List A) (bs : List (List A))
      → get_or (front ++ (b ∷ bs)) (length front) [] ≡ b
  get_or-append [] b bs = refl
  get_or-append (x ∷ front) b bs = get_or-append front b bs

  gather_from_lem :
      (cap i : ℕ) (table front : List (List A)) (out : List A)
      → i ≡ length front
      → length out + total table ≤ cap
      → gather_from (length table) i cap (front ++ table) out ≡ ok (out ++ flatten table)
  unfolding gather_from flatten
  gather_from_lem cap i [] front out e h = rw append-nil
  gather_from_lem cap i (b ∷ bs) front out e h =
      rw (e, get_or-append front b bs, gather_list_lem cap out b (omega arith))
        (rw (← append_assoc front (b ∷ []) bs) (
          gather_from_lem cap (suc (length front)) bs (front ++ (b ∷ [])) (out ++ b)
            (omega (arith, length-append front (b ∷ []))) (omega (arith, length-append out b))
          ∙ ap ok (append_assoc out b (flatten bs))))

  find-append :
      (hc : A → A → Ordering) (k : A) (xs ys : List A)
      → All (λ y. same hc y k ≡ false) xs
      → find hc k (xs ++ ys) ≡ find hc k ys
  unfolding find
  find-append hc k [] ys a = refl
  find-append hc k (x ∷ xs) ys a = rw (a.0) (find-append hc k xs ys a.1)

  find-append_found :
      (hc : A → A → Ordering) (k : A) (xs ys : List A)
      → All (λ y. same hc y k ≡ false) ys
      → find hc k (xs ++ ys) ≡ find hc k xs
  unfolding find
  find-append_found hc k [] ys a = find_absent hc k ys a
  find-append_found hc k (x ∷ xs) ys a = rw (find-append_found hc k xs ys a)

  Distinct-append :
      (hc : A → A → Ordering) (xs ys : List A)
      → Distinct hc xs
      → Distinct hc ys
      → All (λ x. All (λ y. same hc y x ≡ false) ys) xs
      → Distinct hc (xs ++ ys)
  Distinct-append hc [] ys dx dy c = dy
  Distinct-append hc (x ∷ xs) ys dx dy c =
      (All-append _ xs ys dx.0 c.0, Distinct-append hc xs ys dx.1 dy c.1)

module _ {ℓ} {A : Type ℓ} {Good : A → Type 0} {hf : A → ℕ} {hc : A → A → Ordering}
    (laws : IsKey hf hc Good) (size : ℕ) where
  -- Entries of two buckets are never one key.
  apart :
      (i j : ℕ) (x y : A)
      → i ≢ j
      → InPlace hf size Good i x
      → InPlace hf size Good j y
      → same hc y x ≡ false
  apart i j x y h px py = elim (Bool-cases (same hc y x)) [
    | inr e ↦ e
    | inl e ↦
        let q = laws.hf-same y x py.0 px.0 e in
        let r : hf y % size ≡ hf x % size = ap (λ n. n % size) q in
        absurd (omega (arith, px.1, py.1))
  ]

  -- A stretch of buckets, the first of which has index `i`, with every entry in its place.
  abbrev Placed : ℕ → List (List A) → Type ℓ
  Placed i [] = Unit
  Placed i (b ∷ bs) = All (InPlace hf size Good i) b × Placed (suc i) bs

  abbrev Distincts : List (List A) → Type 0
  Distincts [] = Unit
  Distincts (b ∷ bs) = Distinct hc b × Distincts bs

  apart_from_later :
      (i j : ℕ) (x : A)
      → i < j
      → InPlace hf size Good i x
      → (bs : List (List A)) → Placed j bs
      → All (λ y. same hc y x ≡ false) (flatten bs)
  unfolding flatten
  apart_from_later i j x h px [] p = tt
  apart_from_later i j x h px (b ∷ bs) p =
      All-append _ b (flatten bs) (All-map (λ y py. apart i j x y (omega (arith, h)) px py) b p.0)
        (apart_from_later i (suc j) x (omega arith) px bs p.1)

  Distinct-flatten :
      (i : ℕ) (bs : List (List A)) → Placed i bs → Distincts bs → Distinct hc (flatten bs)
  unfolding flatten
  Distinct-flatten i [] p d = tt
  Distinct-flatten i (b ∷ bs) p d =
      Distinct-append hc b (flatten bs) d.0 (Distinct-flatten (suc i) bs p.1 d.1)
        (All-map (λ x px. apart_from_later i (suc i) x (omega arith) px bs p.1) b p.0)

  -- A search through all the entries finds what a search in the right bucket finds.
  find-flatten :
      (i : ℕ) (k : A)
      → Good k
      → (bs : List (List A)) → Placed i bs
      → (n : ℕ) → hf k % size ≡ i + n
      → find hc k (flatten bs) ≡ find hc k (get_or bs n [])
  unfolding flatten
  find-flatten i k g [] p n e = refl
  find-flatten i k g (b ∷ bs) p zero e =
      find-append_found hc k b (flatten bs)
        (apart_from_later i (suc i) k (omega arith) (g, omega (arith, e)) bs p.1)
  find-flatten i k g (b ∷ bs) p (suc n) e =
      find-append hc k b (flatten bs)
        (All-map (λ y py. apart (suc (i + n)) i k y (omega arith) (g, omega (arith, e)) py) b p.0)
      ∙ find-flatten (suc i) k g bs p.1 n (omega (arith, e))

  buckets-Placed :
      (i : ℕ) (bs : List (List A))
      → ((j : ℕ) → All (InPlace hf size Good (i + j)) (get_or bs j []))
      → Placed i bs
  buckets-Placed i [] h = tt
  buckets-Placed i (b ∷ bs) h = (
    subst (λ n. All (InPlace hf size Good n) b) (omega arith) (h 0),
    buckets-Placed (suc i) bs
        (λ j. subst (λ n. All (InPlace hf size Good n) (get_or bs j [])) (omega arith) (h (suc j))),
  )

  buckets-Distincts : (bs : List (List A)) → ((j : ℕ) → Distinct hc (get_or bs j [])) → Distincts bs
  buckets-Distincts [] h = tt
  buckets-Distincts (b ∷ bs) h = (h 0, buckets-Distincts bs (λ j. h (suc j)))

lookup-bucket {ℓ} :
    {A : Type ℓ} (t : HashTable A) (k : A)
    → find t.hc k (get_or t.table (table_index t k) []) ≡ lookup t k
unfolding lookup bucket
lookup-bucket t k = refl

-- The entries of a table, in the order in which they are gathered.
abbrev pub entries {ℓ} : {A : Type ℓ} → HashTable A → List A
entries t = flatten t.table

module _ {ℓ} {A : Type ℓ} {Good : A → Type 0} (t : HashTable A) (v : IsValid Good t) where
  -- Gathering a valid table never leaves its block of `count` pointers, fills all of it, and gives the
  -- entries.
  pub gather-entries : (gather t ≡ ok (t.count, entries t)) × (length (entries t) ≡ t.count)
  unfolding gather
  gather-entries =
      let all : length (entries t) ≡ t.count = length-flatten t.table ∙ sym v.counted in
      (
        rw (← v.width)
            (rw (gather_from_lem t.count 0 t.table [] [] refl (omega (arith, v.counted))) (rw all)),
        all,
      )

  -- In a valid table whose hash function and comparator agree every entry is gathered exactly once: no
  -- two gathered entries are one key, and among them a key finds what a search in the table finds.
  pub gather-lookup :
      IsKey t.hf t.hc Good
      → (k : A) → Good k
      → Distinct t.hc (entries t) × (find t.hc k (entries t) ≡ lookup t k)
  gather-lookup laws k g =
      let placed = buckets-Placed laws t.size 0 t.table (λ j.
        subst (λ n. All (InPlace t.hf t.size Good n) (get_or t.table j [])) (omega arith)
          (v.placed j)) in
      (
        Distinct-flatten laws t.size 0 t.table placed
            (buckets-Distincts laws t.size t.table v.distinct),
        find-flatten laws t.size 0 k g t.table placed (table_index t k)
              (unfold table_index in omega arith)
            ∙ lookup-bucket t k,
      )
