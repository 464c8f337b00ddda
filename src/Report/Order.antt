-- ===== src/Report/Order.antt =====
-- report.c: what is asked of `qsort`, and that the comparators of the report meet its demands.
use mathlib.Core.Path.{subst, fun_ext}
use mathlib.Core.List.{Perm}
use mpi_pv.Prelude.{ℕ, ◌≡◌, ◌≢◌, refl, Ordering, List, [], ◌∷◌, All, arith}
use mpi_pv.Callsite.{CallsiteStats, express}
use mpi_pv.Sources.{strcmp}
use mpi_pv.Names.{op_name}
use mpi_pv.Report.{
  sort_by_cumulative_time, sort_by_cumulative_size, sort_by_cumulative_io, sort_by_cumulative_rma,
  sort_by_name_id_rank,
}
use mpi_pv.Report.Top.{SortOf}

abbrev pub flip : Ordering → Ordering
flip Ordering.lt = Ordering.gt
flip Ordering.eq = Ordering.eq
flip Ordering.gt = Ordering.lt

-- `cmp` is a total preorder, up to which `qsort` sorts.
pub record IsOrder {ℓ} {A : Type ℓ} (cmp : A → A → Ordering) : Type ℓ where
  pub flips : (a b : A) → cmp b a ≡ flip (cmp a b)
  pub same : (a b c : A) → cmp a b ≡ Ordering.eq → cmp a c ≡ cmp b c
  pub trans : (a b c : A) → cmp a b ≡ Ordering.lt → cmp b c ≡ Ordering.lt → cmp a c ≡ Ordering.lt

-- Nothing stands before something smaller.
abbrev pub Sorted {ℓ} : {A : Type ℓ} → (A → A → Ordering) → List A → Type ℓ
Sorted cmp [] = Unit
Sorted cmp (x ∷ xs) = All (λ y. cmp x y ≢ Ordering.gt) xs × Sorted cmp xs

-- `qsort` reorders its array, and sorts it if the comparator is an order. Equal entries come in any
-- order.
pub record IsQsort {A : Type 0} (qsort : SortOf A) : Type 0 where
  pub permutes : (cmp : A → A → Ordering) (xs : List A) → Perm (qsort cmp xs) xs
  pub sorts : (cmp : A → A → Ordering) (xs : List A) → IsOrder cmp → Sorted cmp (qsort cmp xs)

-- The order by one number, ascending and descending.
pub ascending-IsOrder {ℓ} :
    {A : Type ℓ} (f : A → ℕ) → IsOrder (λ a b. express (f a) (f b) Ordering.eq)
unfolding express
ascending-IsOrder f = record {
  flips = λ a b. ground arith;
  same = λ a b c h. ground arith;
  trans = λ a b c h k. ground arith;
}

pub descending-IsOrder {ℓ} :
    {A : Type ℓ} (f : A → ℕ) → IsOrder (λ a b. express (f b) (f a) Ordering.eq)
unfolding express
descending-IsOrder f = record {
  flips = λ a b. ground arith;
  same = λ a b c h. ground arith;
  trans = λ a b c h k. ground arith;
}

-- By one order, and where that is even by another.
abbrev then_by : Ordering → Ordering → Ordering
then_by o p = elim o [ Ordering.lt ↦ Ordering.lt | Ordering.gt ↦ Ordering.gt | Ordering.eq ↦ p ]

then_by-IsOrder {ℓ} :
    {A : Type ℓ} {r s : A → A → Ordering}
    → IsOrder r
    → IsOrder s
    → IsOrder (λ a b. then_by (r a b) (s a b))
then_by-IsOrder {r} {s} p q = record {
  flips = λ a b. ground (arith, p.flips a b, q.flips a b);
  same = λ a b c h. ground (arith, p.same a b c, q.same a b c);
  trans = λ a b c h k. ground (
    arith,
    p.flips a b,
    p.flips b c,
    p.flips a c,
    p.same a b c,
    p.same c b a,
    p.same b c a,
    p.trans a b c,
    q.trans a b c,
  );
}

pub strcmp_flips : (a b : List ℕ) → strcmp b a ≡ flip (strcmp a b)
unfolding strcmp express
strcmp_flips [] [] = refl
strcmp_flips [] (b ∷ ys) = refl
strcmp_flips (a ∷ xs) [] = refl
strcmp_flips (a ∷ xs) (b ∷ ys) = ground (arith, strcmp_flips xs ys)

strcmp_same : (a b c : List ℕ) → strcmp a b ≡ Ordering.eq → strcmp a c ≡ strcmp b c
unfolding strcmp express
strcmp_same [] [] c h = refl
strcmp_same [] (b ∷ ys) c h = cc
strcmp_same (a ∷ xs) [] c h = cc
strcmp_same (a ∷ xs) (b ∷ ys) [] h = refl
strcmp_same (a ∷ xs) (b ∷ ys) (c ∷ zs) h = ground (arith, strcmp_same xs ys zs)

strcmp_trans :
    (a b c : List ℕ)
    → strcmp a b ≡ Ordering.lt
    → strcmp b c ≡ Ordering.lt
    → strcmp a c ≡ Ordering.lt
unfolding strcmp express
strcmp_trans [] [] [] h k = cc
strcmp_trans [] (b ∷ ys) [] h k = cc
strcmp_trans [] b (c ∷ zs) h k = refl
strcmp_trans (a ∷ xs) [] c h k = cc
strcmp_trans (a ∷ xs) (b ∷ ys) [] h k = cc
strcmp_trans (a ∷ xs) (b ∷ ys) (c ∷ zs) h k = ground (arith, strcmp_trans xs ys zs)

strcmp-IsOrder :
    IsOrder (λ (a : CallsiteStats) (b : CallsiteStats). strcmp (op_name a.op) (op_name b.op))
strcmp-IsOrder = record {
  flips = λ a b. strcmp_flips (op_name a.op) (op_name b.op);
  same = λ a b c. strcmp_same (op_name a.op) (op_name b.op) (op_name c.op);
  trans = λ a b c. strcmp_trans (op_name a.op) (op_name b.op) (op_name c.op);
}

express_then : (a b : ℕ) (o : Ordering) → then_by (express a b Ordering.eq) o ≡ express a b o
unfolding express
express_then a b o = ground arith

by_id_rank : CallsiteStats → CallsiteStats → Ordering
by_id_rank a b = express a.csid b.csid (express a.rank b.rank Ordering.eq)

by_id_rank-IsOrder : IsOrder by_id_rank
unfolding by_id_rank
by_id_rank-IsOrder =
    subst IsOrder
      (fun_ext λ a. fun_ext λ b. express_then a.csid b.csid (express a.rank b.rank Ordering.eq))
      (then_by-IsOrder (ascending-IsOrder (λ (p : CallsiteStats). p.csid))
        (ascending-IsOrder (λ (p : CallsiteStats). p.rank)))

pub sort_by_name_id_rank-IsOrder : IsOrder sort_by_name_id_rank
unfolding sort_by_name_id_rank by_id_rank
sort_by_name_id_rank-IsOrder = then_by-IsOrder strcmp-IsOrder by_id_rank-IsOrder

pub sort_by_cumulative-IsOrder :
    IsOrder sort_by_cumulative_time
    × IsOrder sort_by_cumulative_size
    × IsOrder sort_by_cumulative_io
    × IsOrder sort_by_cumulative_rma
unfolding sort_by_cumulative_time sort_by_cumulative_size sort_by_cumulative_io
    sort_by_cumulative_rma
sort_by_cumulative-IsOrder = (
  descending-IsOrder (λ (p : CallsiteStats). p.cumulative_time),
  descending-IsOrder (λ (p : CallsiteStats). p.cumulative_data_sent),
  descending-IsOrder (λ (p : CallsiteStats). p.cumulative_io),
  descending-IsOrder (λ (p : CallsiteStats). p.cumulative_rma),
)
