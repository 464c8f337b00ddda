-- ===== src/Tests/Insertion.antt =====
-- A `qsort` for the runs of the report: sorting by insertion.
use mathlib.Core.List.{Perm}
use mathlib.Core.List.Perm
use mpi_pv.Prelude.{
  ◌≢◌, Ordering, Bool, true, false, inl, inr, if◌then◌else◌, Bool-cases, List, [], ◌∷◌, All, arith,
}
use mpi_pv.Report.Top.{SortOf}
use mpi_pv.Report.Order.{IsOrder, Sorted, IsQsort}

abbrev is_gt : Ordering → Bool
is_gt o = elim o [ Ordering.gt ↦ true | Ordering.lt ↦ false | Ordering.eq ↦ false ]

module _ {A : Type 0} (cmp : A → A → Ordering) where
  unfoldable pub put : A → List A → List A
  put x [] = x ∷ []
  put x (y ∷ ys) = let rest = put x ys in if is_gt (cmp x y) then y ∷ rest else x ∷ y ∷ ys

  unfoldable pub sorted : List A → List A
  sorted [] = []
  sorted (x ∷ xs) = put x (sorted xs)

  put-perm : (x : A) (ys : List A) → Perm (put x ys) (x ∷ ys)
  unfolding put
  put-perm x [] = Perm.refl (x ∷ [])
  put-perm x (y ∷ ys) = elim (Bool-cases (is_gt (cmp x y))) [
    | inl e ↦ rw e (Perm.trans (Perm.cons y (put-perm x ys)) (Perm.swap x y ys))
    | inr e ↦ rw e (Perm.refl (x ∷ y ∷ ys))
  ]

  sorted-perm : (xs : List A) → Perm (sorted xs) xs
  unfolding sorted
  sorted-perm [] = Perm.refl []
  sorted-perm (x ∷ xs) = Perm.trans (put-perm x (sorted xs)) (Perm.cons x (sorted-perm xs))

  put-All : (P : A → Type 0) (x : A) (ys : List A) → P x → All P ys → All P (put x ys)
  unfolding put
  put-All P x [] h k = (h, tt)
  put-All P x (y ∷ ys) h k = elim (Bool-cases (is_gt (cmp x y))) [
    | inl e ↦ rw e (k.0, put-All P x ys h k.1)
    | inr e ↦ rw e (h, k)
  ]

  module _ (o : IsOrder cmp) where
    le_trans : (a b c : A) → cmp a b ≢ Ordering.gt → cmp b c ≢ Ordering.gt → cmp a c ≢ Ordering.gt
    le_trans a b c h k = ground (
      arith,
      h,
      k,
      o.flips a b,
      o.flips b c,
      o.flips a c,
      o.same a b c,
      o.same c b a,
      o.same b c a,
      o.trans a b c,
    )

    All-le :
        (a b : A) (xs : List A)
        → cmp a b ≢ Ordering.gt
        → All (λ c. cmp b c ≢ Ordering.gt) xs
        → All (λ c. cmp a c ≢ Ordering.gt) xs
    All-le a b [] h k = tt
    All-le a b (x ∷ xs) h k = (le_trans a b x h k.0, All-le a b xs h k.1)

    put-Sorted : (x : A) (ys : List A) → Sorted cmp ys → Sorted cmp (put x ys)
    unfolding put
    put-Sorted x [] s = (tt, tt)
    put-Sorted x (y ∷ ys) s = elim (Bool-cases (is_gt (cmp x y))) [
      | inl e ↦
          let le : cmp y x ≢ Ordering.gt = ground (arith, e, o.flips x y) in
          rw e (put-All (λ c. cmp y c ≢ Ordering.gt) x ys le s.0, put-Sorted x ys s.1)
      | inr e ↦
          let le : cmp x y ≢ Ordering.gt = ground (arith, e) in rw e ((le, All-le x y ys le s.0), s)
    ]

    sorted-Sorted : (xs : List A) → Sorted cmp (sorted xs)
    unfolding sorted
    sorted-Sorted [] = tt
    sorted-Sorted (x ∷ xs) = put-Sorted x (sorted xs) (sorted-Sorted xs)

abbrev pub insertion : {A : Type 0} → SortOf A
insertion cmp xs = sorted cmp xs

pub insertion-IsQsort : {A : Type 0} → IsQsort (insertion {A = A})
insertion-IsQsort = record {
  permutes = λ cmp xs. sorted-perm cmp xs;
  sorts = λ cmp xs o. sorted-Sorted cmp o xs;
}
