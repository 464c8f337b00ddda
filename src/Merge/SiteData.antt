-- ===== src/Merge/SiteData.antt =====
-- mpiPi.c: the times of the single tasks that a record of all ranks keeps in `siteData`, from which the
-- report computes the coefficient of variation.
use mathlib.Core.List.{append_assoc, append-nil}
use mpi_pv.Prelude.{
  ℕ, zero, suc, ◌+◌, ◌≤◌, ◌<◌, ◌≡◌, refl, ap, ◌∙◌, true, Option, none, some, List, [], ◌∷◌, ◌++◌,
  arith, map, take, set, length, length-set, length-append, length-replicate, replicate, keep,
}
use mpi_pv.Hash.{lookup}
use mpi_pv.Hash.Chain.{same}
use mpi_pv.Hash.Grouped.{grouped, Holds, lookup-upsert_all}
use mpi_pv.Callsite.{CallsiteStats, src_id_hashkey, src_id_comparator}
use mpi_pv.Sources.{Location}
use mpi_pv.Merge.{Collector, new_aggregate, merge_aggregate, insert_all}
use mpi_pv.Merge.Groups.{queried, aggregate-IsMerge, agg-upsert_all}

take-set :
    (xs : List ℕ) (n v : ℕ) → n < length xs → take (suc n) (set xs n v) ≡ take n xs ++ (v ∷ [])
take-set [] n v h = absurd (omega arith)
take-set (x ∷ xs) zero v h = refl
take-set (x ∷ xs) (suc n) v h = ap (λ ys. x ∷ ys) (take-set xs n v (omega (arith, h)))

-- The record `s` keeps the times `xs`, in an array of the length `size`.
abbrev pub Times : ℕ → List ℕ → CallsiteStats → Type 0
Times size xs s =
    (s.site_data_idx ≡ length xs)
    × (take (length xs) s.site_data ≡ xs)
    × (length s.site_data ≡ size)

abbrev pub time_of : CallsiteStats → ℕ
time_of p = p.cumulative_time

merge-Times :
    (size : ℕ) (xs : List ℕ) (p s : CallsiteStats)
    → suc (length xs) ≤ size
    → Times size xs s
    → Times size (xs ++ (time_of p ∷ [])) (merge_aggregate true p s)
unfolding merge_aggregate
merge-Times size xs p s h (idx, times, len) =
    let l : length (xs ++ (time_of p ∷ [])) ≡ suc (length xs) =
      length-append xs (time_of p ∷ []) ∙ omega arith in
    (
      omega (arith, idx, l),
      rw (l, idx)
          (take-set s.site_data (length xs) (time_of p) (omega (arith, len, h))
            ∙ ap (λ ys. ys ++ (time_of p ∷ [])) times),
      length-set s.site_data s.site_data_idx (time_of p) ∙ len,
    )

new-Times :
    (size : ℕ) (p : CallsiteStats)
    → 1 ≤ size
    → Times size (time_of p ∷ []) (new_aggregate size true p)
unfolding new_aggregate
new-Times size p h = (
  refl,
  take-set (replicate size 0) 0 (time_of p) (omega (arith, length-replicate {A = ℕ} size 0)),
  length-set (replicate size 0) 0 (time_of p) ∙ length-replicate {A = ℕ} size 0,
)

grouped-Times :
    (size : ℕ) (ps : List CallsiteStats) (xs : List ℕ) (a : CallsiteStats)
    → length xs + length ps ≤ size
    → Times size xs a
    → (s : CallsiteStats) × (grouped (new_aggregate size true) (merge_aggregate true) (some a) ps
        ≡ some s)
      × Times size (xs ++ map time_of ps) s
grouped-Times size [] xs a h t = (a, refl, rw append-nil t)
grouped-Times size (p ∷ ps) xs a h t =
    let (s, e, t') =
      grouped-Times size ps (xs ++ (time_of p ∷ [])) (merge_aggregate true p a)
        (omega (arith, h, length-append xs (time_of p ∷ [])))
        (merge-Times size xs p a (omega arith) t) in
    (s, e, rw (append_assoc xs (time_of p ∷ []) (map time_of ps)) at t')

-- What a table holds of the times for a key, from the key's records.
abbrev pub KeptTimes : ℕ → List CallsiteStats → Option CallsiteStats → Type 0
KeptTimes size [] o = o ≡ none
KeptTimes size (p ∷ ps) o = (s : CallsiteStats) × (o ≡ some s) × Times size (map time_of (p ∷ ps)) s

-- With the coefficient of variation on, and no more records for a call site than there are tasks, the
-- record of all ranks keeps the time of every inserted record of the site, in their order, and its
-- index is their number; the array has still the length with which it was allocated.
pub insert_all-KeptTimes :
    (find_src_loc : ℕ → Option Location) (ps : List CallsiteStats) (c : Collector)
    (k : CallsiteStats)
    → c.settings.calc_cov ≡ true
    → Holds src_id_hashkey src_id_comparator c.global_callsite_stats_agg
    → lookup c.global_callsite_stats_agg k ≡ none
    → length (keep (λ q. same src_id_comparator q k) (queried find_src_loc ps c)) ≤ c.size
    → KeptTimes c.size
        (keep (λ q. same src_id_comparator q k) (queried find_src_loc ps c))
        (lookup (insert_all find_src_loc ps c).global_callsite_stats_agg k)
insert_all-KeptTimes find_src_loc ps c k on h empty few =
    let group = keep (λ q. same src_id_comparator q k) (queried find_src_loc ps c) in
    let new = new_aggregate c.size c.settings.calc_cov in
    let f = merge_aggregate c.settings.calc_cov in
    let (_, reads) =
      lookup-upsert_all new f src_id_hashkey src_id_comparator
        (aggregate-IsMerge c.size c.settings.calc_cov) (queried find_src_loc ps c)
        c.global_callsite_stats_agg h in
    let e : lookup (insert_all find_src_loc ps c).global_callsite_stats_agg k
        ≡ grouped (new_aggregate c.size true) (merge_aggregate true) none group =
      ap (λ t. lookup t k) (agg-upsert_all find_src_loc ps c)
      ∙ reads k
      ∙ ap (λ o. grouped new f o group) empty
      ∙ ap (λ b. grouped (new_aggregate c.size b) (merge_aggregate b) none group) on in
    rw e (from_none c.size group few)
  where
    from_none :
        (size : ℕ) (group : List CallsiteStats)
        → length group ≤ size
        → KeptTimes size group (grouped (new_aggregate size true) (merge_aggregate true) none group)
    from_none size [] few = refl
    from_none size (p ∷ group) few =
        grouped-Times size group (time_of p ∷ []) (new_aggregate size true p) (omega (arith, few))
          (new-Times size p (omega (arith, few)))
