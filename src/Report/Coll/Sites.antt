-- ===== src/Report/Coll/Sites.antt =====
-- report.c: what the collector learns of one call site from the tasks.
use mpi_pv.Prelude.{
  ℕ, ◌+◌, ◌≡◌, Bool, false, Option, none, some, List, [], ◌∷◌, ◌++◌, length, ltb, if◌then◌else◌,
}
use mpi_pv.Hash.{HashTable, lookup}
use mpi_pv.Callsite.{CallsiteStats}
use mpi_pv.Report.{Line, blank, Report, Format}
use mpi_pv.Report.Detail.{size_summary, Sums, no_sums, View, time_view}
use mpi_pv.Report.Coll.{coll_size_ranks, Tasks, task_data, all_sums, counting}

-- The records of the call site of `p` that the tasks from rank `rank` on have.
abbrev pub joined : Option CallsiteStats → List CallsiteStats → List CallsiteStats
joined none ds = ds
joined (some d) ds = d ∷ ds

pub present : CallsiteStats → ℕ → List (HashTable CallsiteStats) → List CallsiteStats
present p rank [] = []
present p rank (t ∷ ts) = joined (lookup t (record p { rank = rank })) (present p (rank + 1) ts)

module _ (tasks : Tasks) (p : CallsiteStats) where
  -- All but the least of the sums
  abbrev Agree : Sums → Sums → Type 0
  Agree s s' = (s.count ≡ s'.count) × (s.greatest ≡ s'.greatest) × (s.cumulative ≡ s'.cumulative)

  abbrev times : ℕ → List (HashTable CallsiteStats) → List CallsiteStats
  times rank ts = task_data 0 false tasks p rank ts

-- What the collector would make of the tasks' own records alone; the least is 0 if a task has none.
module _ (tasks : Tasks) (p : CallsiteStats) where
  abbrev pub own : List CallsiteStats
  own = present p 0 tasks.tables

  abbrev pub own_sums : View → Sums
  own_sums v = all_sums v (counting v own) no_sums

  abbrev pub reported_sums : Sums
  reported_sums = record (all_sums time_view own no_sums) {
    least =
        if ltb (length own) (length tasks.tables)
        then 0
        else (all_sums time_view own no_sums).least;
  }

  abbrev pub size_lines : View → Format → Format → Bool → ℕ → List Line
  size_lines v rank_fmt summary_fmt own_name op =
      if ltb 0 (v.cumulative p)
      then coll_size_ranks v rank_fmt own_name p (counting v own)
        ++ ((if ltb 0 (own_sums v).cumulative
              then size_summary summary_fmt op p.csid (own_sums v) ∷ []
              else [])
            ++ blank ∷ [])
      else []
