-- ===== src/Pcontrol/Reset.antt =====
-- pcontrol.c: what `mpiPi_reset_callsite_data` leaves of the task's table.
use mathlib.Core.Option
use mpi_pv.Prelude.{ℕ, ◌≡◌, refl, Option, none, some, arith}
use mpi_pv.Hash.{lookup}
use mpi_pv.Hash.Chain.{Unseen}
use mpi_pv.Hash.Rewrite.{rewrite_all, rewrite_all-IsValid, lookup-rewrite_all}
use mpi_pv.Callsite.{CallsiteStats, pc_hashkey, pc_comparator, dbl_max}
use mpi_pv.State.{Profiler, no_totals}
use mpi_pv.Task.Refine.{IsTask}
use mpi_pv.Pcontrol.{reset_record, reset_callsite_data}

reset_record-Unseen : (depth : ℕ) → Unseen (pc_comparator depth) reset_record
unfolding pc_comparator reset_record
reset_record-Unseen depth = (λ a b. refl, λ a b. refl)

reset_record-hf :
    (depth : ℕ) (a : CallsiteStats) → pc_hashkey depth (reset_record a) ≡ pc_hashkey depth a
unfolding pc_hashkey reset_record
reset_record-hf depth a = refl

-- A record whose calls are forgotten, except for what concerns remote memory access.
pub record IsReset (old new : CallsiteStats) : Type 0 where
  pub count : new.count ≡ 0
  pub time : new.cumulative_time ≡ 0
  pub squares : new.cumulative_time_squared ≡ 0
  pub durations : (new.max_dur ≡ 0) × (new.min_dur ≡ dbl_max)
  pub sent :
      (new.cumulative_data_sent ≡ 0) × (new.max_data_sent ≡ 0) × (new.min_data_sent ≡ dbl_max)
  pub io : (new.cumulative_io ≡ 0) × (new.max_io ≡ 0) × (new.min_io ≡ dbl_max)
  pub messages : new.arbitrary_message_count ≡ 0
  pub site : (new.op ≡ old.op) × (new.rank ≡ old.rank) × (new.pc ≡ old.pc)
  pub rma :
      (new.cumulative_rma ≡ old.cumulative_rma)
      × (new.max_rma ≡ old.max_rma)
      × (new.min_rma ≡ old.min_rma)

reset_record-IsReset : (s : CallsiteStats) → IsReset s (reset_record s)
unfolding reset_record
reset_record-IsReset s = ground arith

-- A call site after the reset, from what it was before.
abbrev pub ResetTo : Option CallsiteStats → Option CallsiteStats → Type 0
ResetTo none o = o ≡ none
ResetTo (some old) o = (new : CallsiteStats) × (o ≡ some new) × IsReset old new

-- A reset keeps the task's table valid and every call site in it, forgets the time, the data sent,
-- the input and output and the counts of each, and clears the totals and the clock. The bytes of
-- remote memory access that a record has accumulated, with their extremes, are kept.
pub reset-ResetTo :
    (now : ℕ) (p : Profiler)
    → IsTask p
    → let q = reset_callsite_data now p in
      IsTask q
      × ((k : CallsiteStats)
          → ResetTo (lookup p.task_callsite_stats k) (lookup q.task_callsite_stats k))
      × (q.totals ≡ no_totals)
      × (q.cumulative_time ≡ 0)
      × (q.start_time ≡ now)
unfolding reset_callsite_data
reset-ResetTo now p h =
    let u : Unseen p.task_callsite_stats.hc reset_record =
      rw (h.hc) (reset_record-Unseen p.settings.stack_depth) in
    (
      record {
        hf = unfold rewrite_all in h.hf;
        hc = unfold rewrite_all in h.hc;
        valid =
            rewrite_all-IsValid p.task_callsite_stats h.valid reset_record u (λ a g. tt)
              (λ a. rw (h.hf) (reset_record-hf p.settings.stack_depth a));
      },
      λ k.
          rw (lookup-rewrite_all p.task_callsite_stats h.valid reset_record u k)
            (each (lookup p.task_callsite_stats k)),
      refl,
      refl,
      refl,
    )
  where
    each : (o : Option CallsiteStats) → ResetTo o (Option.map reset_record o)
    each none = refl
    each (some s) = (reset_record s, refl, reset_record-IsReset s)
