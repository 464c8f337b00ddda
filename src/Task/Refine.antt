-- ===== src/Task/Refine.antt =====
-- mpiPi.c: the task's table is a map from call sites to what was accounted to each.
use mathlib.Core.Path.{subst}
use mpi_pv.Prelude.{
  ℕ, ◌≡◌, refl, sym, ap, ◌∙◌, Bool, true, Option, none, some, List, [], ◌∷◌, arith, if◌then◌else◌,
  keep, Bool-cases, inl, inr, Ordering,
}
use mpi_pv.Prelude.Int.{ℤ}
use mpi_pv.Hash.{HashTable, lookup, h_write}
use mpi_pv.Hash.Chain.{same, IsKey, Unseen}
use mpi_pv.Hash.Invariant.{IsValid, h_write-IsValid}
use mpi_pv.Hash.Lookup.{lookup-h_write, lookup_congr, old_or_new}
use mpi_pv.Hash.Upsert.{
  find_or_insert, functions-find_or_insert, find_or_insert-IsValid, lookup-find_or_insert,
}
use mpi_pv.Callsite.{CallsiteStats, pc_hashkey, pc_comparator}
use mpi_pv.Callsite.Keys.{Total, pc-IsKey}
use mpi_pv.State.{Profiler}
use mpi_pv.Task.{Event, new_record, account, update_callsite_stats, update_all}
use mpi_pv.Task.Account.{min_of, account_all, Accounted, account_all-Accounted}

-- The task's table is valid and was opened, as `mpiPi_init` does, with the functions by address.
pub record IsTask (p : Profiler) : Type 0 where
  pub hf : p.task_callsite_stats.hf ≡ pc_hashkey p.settings.stack_depth
  pub hc : p.task_callsite_stats.hc ≡ pc_comparator p.settings.stack_depth
  pub valid : IsValid (Total CallsiteStats) p.task_callsite_stats

pub IsTask-IsKey :
    {p : Profiler}
    → IsTask p
    → IsKey p.task_callsite_stats.hf p.task_callsite_stats.hc (Total CallsiteStats)
IsTask-IsKey {p} h = rw (h.hf, h.hc) (pc-IsKey p.settings.stack_depth)

-- The event belongs to the call site of the record `k`.
abbrev pub at_site : ℕ → CallsiteStats → Event → Bool
at_site depth k e = same (pc_comparator depth) (new_record depth e) k

-- What the table holds for a call site, from what it held before and the site's further calls.
abbrev pub after : ℤ → ℕ → Option CallsiteStats → List Event → Option CallsiteStats
after threshold depth (some csp) es = some (account_all threshold es csp)
after threshold depth none [] = none
after threshold depth none (e ∷ es) = some (account_all threshold (e ∷ es) (new_record depth e))

account-Unseen :
    (depth : ℕ) (threshold : ℤ) (e : Event) → Unseen (pc_comparator depth) (account threshold e)
unfolding pc_comparator account
account-Unseen depth threshold e = (λ a b. refl, λ a b. refl)

account-hf :
    (depth : ℕ) (threshold : ℤ) (e : Event) (a : CallsiteStats)
    → pc_hashkey depth (account threshold e a) ≡ pc_hashkey depth a
unfolding pc_hashkey account
account-hf depth threshold e a = refl

-- The table after one call, of a task that is enabled.
abbrev updated : Profiler → Event → HashTable CallsiteStats
updated p e =
    let key = new_record p.settings.stack_depth e in
    h_write (find_or_insert p.task_callsite_stats key) key
      (account p.settings.message_count_threshold e)

update_enabled :
    (p : Profiler) (e : Event)
    → p.enabled ≡ true
    → update_callsite_stats p e ≡ record p { task_callsite_stats = updated p e }
unfolding update_callsite_stats
update_enabled p e on = rw on

module _ (p : Profiler) (h : IsTask p) (e : Event) where
  abbrev ht : HashTable CallsiteStats
  ht = p.task_callsite_stats

  abbrev key : CallsiteStats
  key = new_record p.settings.stack_depth e

  abbrev ht' : HashTable CallsiteStats
  ht' = find_or_insert ht key

  fns :
      (ht'.hf ≡ pc_hashkey p.settings.stack_depth) × (ht'.hc ≡ pc_comparator p.settings.stack_depth)
  fns = let f = functions-find_or_insert ht key in (f.0 ∙ h.hf, f.1 ∙ h.hc)

  laws' : IsKey ht'.hf ht'.hc (Total CallsiteStats)
  laws' = rw (fns.0, fns.1) (pc-IsKey p.settings.stack_depth)

  valid' : IsValid (Total CallsiteStats) ht'
  valid' = find_or_insert-IsValid ht h.valid (IsTask-IsKey h) key tt

  unseen : Unseen ht'.hc (account p.settings.message_count_threshold e)
  unseen = rw (fns.1) (account-Unseen p.settings.stack_depth p.settings.message_count_threshold e)

  updated-IsTask : IsTask (record p { task_callsite_stats = updated p e })
  unfolding h_write
  updated-IsTask = record {
    hf = fns.0;
    hc = fns.1;
    valid =
        h_write-IsValid ht' valid' key (account p.settings.message_count_threshold e) unseen
          (λ a g. tt) (λ a. rw (fns.0) (account-hf _ _ e a));
  }

  lookup-updated :
      (k : CallsiteStats)
      → lookup (updated p e) k ≡ (
          if at_site p.settings.stack_depth k e
          then some (account p.settings.message_count_threshold e (old_or_new (lookup ht k) key))
          else lookup ht k)
  lookup-updated k = ground (
    arith,
    lookup-h_write ht' valid' laws' key k (account p.settings.message_count_threshold e) tt tt
        unseen,
    lookup-find_or_insert ht h.valid (IsTask-IsKey h) key k tt tt,
    lookup_congr ht' valid' laws' key k tt tt,
    ap (λ (c : CallsiteStats → CallsiteStats → Ordering). same c key k) fns.1,
    ap (λ (c : CallsiteStats → CallsiteStats → Ordering). same c key k) h.hc,
  )

after_step :
    (threshold : ℤ) (depth : ℕ) (o : Option CallsiteStats) (k : CallsiteStats) (e : Event)
    (es : List Event)
    → after threshold depth
        (if at_site depth k e
          then some (account threshold e (old_or_new o (new_record depth e)))
          else o)
        (keep (at_site depth k) es)
      ≡ after threshold depth o (keep (at_site depth k) (e ∷ es))
after_step threshold depth o k e es = elim (Bool-cases (at_site depth k e)) [
  | inl q ↦ rw q (started o)
  | inr q ↦ rw q
]
  where
    started :
        (o : Option CallsiteStats)
        → after threshold depth
            (some (account threshold e (old_or_new o (new_record depth e))))
            (keep (at_site depth k) es)
          ≡ after threshold depth o (e ∷ keep (at_site depth k) es)
    started none = refl
    started (some s) = refl

-- The table of an enabled task stays valid through any calls, and for every call site it holds what
-- accounting the calls of that site, in their order, makes of what it held before.
pub update_all-after :
    (es : List Event) (p : Profiler)
    → IsTask p
    → p.enabled ≡ true
    → IsTask (update_all p es)
      × ((k : CallsiteStats)
          → lookup (update_all p es).task_callsite_stats k
            ≡ after p.settings.message_count_threshold p.settings.stack_depth
                (lookup p.task_callsite_stats k)
                (keep (at_site p.settings.stack_depth k) es))
unfolding update_all
update_all-after [] p h on = (h, λ k. start (lookup p.task_callsite_stats k))
  where
    start :
        (o : Option CallsiteStats)
        → o ≡ after p.settings.message_count_threshold p.settings.stack_depth o []
    start none = refl
    start (some s) = refl
update_all-after (e ∷ es) p h on =
    let p' = record p { task_callsite_stats = updated p e } in
    let (t, reads) = update_all-after es p' (updated-IsTask p h e) on in
    subst
      (λ q.
        IsTask (update_all q es)
        × ((k : CallsiteStats)
            → lookup (update_all q es).task_callsite_stats k
              ≡ after p.settings.message_count_threshold p.settings.stack_depth
                  (lookup p.task_callsite_stats k)
                  (keep (at_site p.settings.stack_depth k) (e ∷ es))))
      (sym (update_enabled p e on))
      (
        t,
        λ k.
            reads k
            ∙ ap
                (λ o.
                  after p.settings.message_count_threshold p.settings.stack_depth o
                    (keep (at_site p.settings.stack_depth k) es))
                (lookup-updated p h e k)
            ∙ after_step p.settings.message_count_threshold p.settings.stack_depth
                (lookup p.task_callsite_stats k) k e es,
      )

-- What a table that held nothing for a site holds after the site's calls: nothing if there were
-- none, and else one record with the site's statistics, over exactly those calls. The least values are
-- those of the calls and of what a new record begins with: DBL_MAX, but 0 for remote memory access.
abbrev pub Summarises : ℤ → ℕ → List Event → Option CallsiteStats → Type 0
Summarises threshold depth [] o = o ≡ none
Summarises threshold depth (e ∷ es) o =
    (s : CallsiteStats) × (o ≡ some s)
    × Accounted threshold (new_record depth e) (e ∷ es) s
    × (s.min_rma ≡ 0)

min_of-zero : (f : Event → ℕ) (es : List Event) → min_of f 0 es ≡ 0
min_of-zero f [] = refl
min_of-zero f (e ∷ es) = omega (arith, min_of-zero f es)

-- A task whose table is empty, as after `mpiPi_init`, groups its calls by call site: whatever calls
-- it accounts for, each site's record holds the number of the site's calls, the sums and the greatest
-- of their durations and sizes, the least duration and the least size of data sent and of input and
-- output, of DBL_MAX and the calls', and the number of calls over the threshold. The least size of
-- remote memory access is not the calls' but always 0. A site with no call has no record.
pub update_all-Summarises :
    (es : List Event) (p : Profiler)
    → IsTask p
    → p.enabled ≡ true
    → (k : CallsiteStats) → lookup p.task_callsite_stats k ≡ none
    → Summarises p.settings.message_count_threshold p.settings.stack_depth
        (keep (at_site p.settings.stack_depth k) es)
        (lookup (update_all p es).task_callsite_stats k)
unfolding new_record
update_all-Summarises es p h on k empty =
    rw ((update_all-after es p h on).1 k)
      (rw empty (summary (keep (at_site p.settings.stack_depth k) es)))
  where
    summary :
        (mine : List Event)
        → Summarises p.settings.message_count_threshold p.settings.stack_depth mine
            (after p.settings.message_count_threshold p.settings.stack_depth none mine)
    summary [] = refl
    summary (e ∷ es) =
        let all =
          account_all-Accounted p.settings.message_count_threshold (e ∷ es)
            (new_record p.settings.stack_depth e) in
        (_, refl, all, all.least_rma ∙ min_of-zero (λ e. e.rma_size) (e ∷ es))
