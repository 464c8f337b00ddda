-- ===== src/Hash/Grouped.antt =====
-- mpiPi.c: records that are searched for, inserted or merged one after the other.
use mpi_pv.Prelude.{
  ℕ, ◌≡◌, refl, ◌∙◌, ap, Ordering, true, Option, none, some, List, [], ◌∷◌, if◌then◌else◌, keep,
  Bool-cases, inl, inr,
}
use mpi_pv.Hash.{HashTable, lookup}
use mpi_pv.Hash.Chain.{same, IsKey, Unseen}
use mpi_pv.Hash.Invariant.{IsValid}
use mpi_pv.Hash.Upsert.{
  insert_or_write, functions-insert_or_write, insert_or_write-IsValid, lookup-insert_or_write,
}

-- A valid table that was opened with these functions.
pub record Holds {A : Type 0} (hf : A → ℕ) (hc : A → A → Ordering) (t : HashTable A) : Type 0 where
  pub hash : t.hf ≡ hf
  pub comparator : t.hc ≡ hc
  pub valid : IsValid (λ a. Unit) t

-- A record `p` is the key itself; `new p` is what is inserted for it, and `f p` merges it into a
-- record that is there.
module _ {A : Type 0} (new : A → A) (f : A → A → A) where
  abbrev pub upsert_all : HashTable A → List A → HashTable A
  upsert_all t [] = t
  upsert_all t (p ∷ ps) = upsert_all (insert_or_write t p (new p) (f p)) ps

  -- What becomes of one key.
  abbrev pub grouped : Option A → List A → Option A
  grouped o [] = o
  grouped none (p ∷ ps) = grouped (some (new p)) ps
  grouped (some x) (p ∷ ps) = grouped (some (f p x)) ps

  pub record IsMerge (hf : A → ℕ) (hc : A → A → Ordering) : Type 0 where
    pub laws : IsKey hf hc (λ a. Unit)
    pub keyed : (p : A) → same hc (new p) p ≡ true
    pub unseen : (p : A) → Unseen hc (f p)
    pub same_hash : (p a : A) → hf (f p a) ≡ hf a

  module _ (hf : A → ℕ) (hc : A → A → Ordering) (m : IsMerge hf hc) where
    pub upsert-Holds :
        (t : HashTable A) (p : A)
        → Holds hf hc t
        → Holds hf hc (insert_or_write t p (new p) (f p))
          × ((k : A)
              → lookup (insert_or_write t p (new p) (f p)) k ≡ (
                  if same hc p k
                  then some (elim (lookup t k) [ none ↦ new p | some x ↦ f p x ])
                  else lookup t k))
    upsert-Holds t p h =
        let laws : IsKey t.hf t.hc (λ a. Unit) = rw (h.hash, h.comparator) m.laws in
        let keyed : same t.hc (new p) p ≡ true = rw (h.comparator) (m.keyed p) in
        let unseen : Unseen t.hc (f p) = rw (h.comparator) (m.unseen p) in
        let (a, b) = functions-insert_or_write t p (new p) (f p) in
        (
          record {
            hash = a ∙ h.hash;
            comparator = b ∙ h.comparator;
            valid =
                insert_or_write-IsValid t h.valid laws p (new p) (f p) tt tt keyed unseen
                  (λ a g. tt) (λ a. rw (h.hash) (m.same_hash p a));
          },
          λ k.
              lookup-insert_or_write t h.valid laws p (new p) (f p) tt tt keyed unseen k tt
              ∙ ap
                  (λ (c : A → A → Ordering).
                    if same c p k
                    then some (elim (lookup t k) [ none ↦ new p | some x ↦ f p x ])
                    else lookup t k)
                  h.comparator,
        )

    grouped_step :
        (o : Option A) (p k : A) (ps : List A)
        → grouped
            (if same hc p k then some (elim o [ none ↦ new p | some x ↦ f p x ]) else o)
            (keep (λ q. same hc q k) ps)
          ≡ grouped o (keep (λ q. same hc q k) (p ∷ ps))
    grouped_step o p k ps = elim (Bool-cases (same hc p k)) [
      | inl e ↦ rw e (start o)
      | inr e ↦ rw e
    ]
      where
        start :
            (o : Option A)
            → grouped (some (elim o [ none ↦ new p | some x ↦ f p x ])) (keep (λ q. same hc q k) ps)
              ≡ grouped o (p ∷ keep (λ q. same hc q k) ps)
        start none = refl
        start (some x) = refl

    -- For every key the table holds the merge of the key's records, in their order.
    pub lookup-upsert_all :
        (ps : List A) (t : HashTable A)
        → Holds hf hc t
        → Holds hf hc (upsert_all t ps)
          × ((k : A)
              → lookup (upsert_all t ps) k ≡ grouped (lookup t k) (keep (λ q. same hc q k) ps))
    lookup-upsert_all [] t h = (h, λ k. refl)
    lookup-upsert_all (p ∷ ps) t h =
        let (h', one) = upsert-Holds t p h in
        let (h'', rest) = lookup-upsert_all ps (insert_or_write t p (new p) (f p)) h' in
        (
          h'',
          λ k.
              rest k
              ∙ ap (λ o. grouped o (keep (λ q. same hc q k) ps)) (one k)
              ∙ grouped_step (lookup t k) p k ps,
        )
