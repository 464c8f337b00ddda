-- ===== src/Hash/Rewrite.antt =====
-- pcontrol.c: a write to every record of a table, through the pointers that were gathered.
use mathlib.Core.Option
use mathlib.Core.List.{map}
use mpi_pv.Prelude.{
  ℕ, zero, suc, ◌%◌, ◌≡◌, refl, sym, ap, ◌∙◌, Ordering, List, [], ◌∷◌, arith, length, get_or, All,
  Bool-cases, inl, inr,
}
use mpi_pv.Hash.{is_zero, HashTable, find, table_index, bucket, lookup}
use mpi_pv.Hash.Chain.{Distinct, Unseen}
use mpi_pv.Hash.Invariant.{IsValid, total}

-- `for (ndx = 0; ndx < ac; ndx++) *av[ndx] = f (*av[ndx]);` over everything that was gathered
unfoldable pub rewrite_all {ℓ} : {A : Type ℓ} → HashTable A → (A → A) → HashTable A
rewrite_all ht f = record ht { table = map (map f) ht.table }

module _ {ℓ} {A : Type ℓ} (f : A → A) where
  get_or-map : (bs : List (List A)) (i : ℕ) → get_or (map (map f) bs) i [] ≡ map f (get_or bs i [])
  get_or-map [] i = refl
  get_or-map (b ∷ bs) zero = refl
  get_or-map (b ∷ bs) (suc i) = get_or-map bs i

  length-map_buckets : (bs : List (List A)) → length (map (map f) bs) ≡ length bs
  length-map_buckets [] = refl
  length-map_buckets (b ∷ bs) = ap suc (length-map_buckets bs)

  length-map : (xs : List A) → length (map f xs) ≡ length xs
  length-map [] = refl
  length-map (x ∷ xs) = ap suc (length-map xs)

  total-map : (bs : List (List A)) → total (map (map f) bs) ≡ total bs
  total-map [] = refl
  total-map (b ∷ bs) = omega (arith, length-map b, total-map bs)

  find-map :
      (hc : A → A → Ordering)
      → Unseen hc f
      → (k : A) (xs : List A) → find hc k (map f xs) ≡ Option.map f (find hc k xs)
  unfolding find
  find-map hc u k [] = refl
  find-map hc u k (x ∷ xs) =
      rw (u.0)
        (elim (Bool-cases (is_zero (hc x k))) [ inl e ↦ rw e | inr e ↦ rw e (find-map hc u k xs) ])

  All-map_of {κ μ} :
      (P : A → Type κ) (Q : A → Type μ)
      → ((a : A) → P a → Q (f a))
      → (xs : List A) → All P xs
      → All Q (map f xs)
  All-map_of P Q g [] h = tt
  All-map_of P Q g (x ∷ xs) h = (g x h.0, All-map_of P Q g xs h.1)

  Distinct-map :
      (hc : A → A → Ordering)
      → Unseen hc f
      → (xs : List A) → Distinct hc xs
      → Distinct hc (map f xs)
  Distinct-map hc u [] d = tt
  Distinct-map hc u (x ∷ xs) d =
      (All-map_of _ _ (λ a e. rw (u.0, u.1) e) xs d.0, Distinct-map hc u xs d.1)

module _ {ℓ} {A : Type ℓ} {Good : A → Type 0} (t : HashTable A) (v : IsValid Good t) (f : A → A)
    (u : Unseen t.hc f) where
  pub rewrite_all-IsValid :
      ((a : A) → Good a → Good (f a))
      → ((a : A) → t.hf (f a) ≡ t.hf a)
      → IsValid Good (rewrite_all t f)
  unfolding rewrite_all
  rewrite_all-IsValid keeps same_hash = record {
    two_le = v.two_le;
    width = length-map_buckets f t.table ∙ v.width;
    counted = v.counted ∙ sym (total-map f t.table);
    placed = λ i.
        rw (get_or-map f t.table i)
          (All-map_of f _ _ (λ a h. (keeps a h.0, rw (same_hash a) h.1)) _ (v.placed i));
    distinct = λ i. rw (get_or-map f t.table i) (Distinct-map f t.hc u _ (v.distinct i));
  }

  -- Every key finds the written record where it found the old one.
  pub lookup-rewrite_all : (k : A) → lookup (rewrite_all t f) k ≡ Option.map f (lookup t k)
  unfolding rewrite_all lookup bucket table_index
  lookup-rewrite_all k = rw (get_or-map f t.table (t.hf k % t.size)) (find-map f t.hc u k _)
