-- ===== src/Wrappers/Nested.antt =====
-- wrappers.c: what a program's calls leave in the task's table, and that calls within calls leave
-- nothing.
use mpi_pv.Prelude.{
  ◌-◌, ◌≤◌, ◌≡◌, refl, ap, ◌∙◌, true, false, some, List, [], ◌∷◌, not_ltb, Bool-cases, inl, inr,
}
use mpi_pv.State.{Profiler, Histograms}
use mpi_pv.Task.{Event, update_callsite_stats, update_all}
use mpi_pv.Histogram.{update_collective_stats, update_pt2pt_stats}
use mpi_pv.Wrappers.{
  Kind, plain, collective, pt2pt, Details, traced, event, collective_stats, histogram_stats, finish,
  Call, Calls, call, done, next, resume, and_then, run_call, run_calls,
}

finish-off : (d : Details) (p : Profiler) → p.enabled ≡ false → finish d p ≡ some p
unfolding finish
finish-off d p off = simp off

mutual
  unfolding run_call

  call-off : (c : Call) (p : Profiler) → p.enabled ≡ false → run_call c p ≡ some p
  call-off (call d nested) p off =
      ap (resume d p) (calls-off nested (record p { enabled = false }) refl) ∙ finish-off d p off

  calls-off : (cs : Calls) (p : Profiler) → p.enabled ≡ false → run_calls cs p ≡ some p
  calls-off done p off = refl
  calls-off (next c cs) p off =
      ap (λ o. and_then o (λ q. run_calls cs q)) (call-off c p off) ∙ calls-off cs p off

-- Whatever calls the library makes while a call runs, none of them leaves a trace: the outer call is
-- accounted for as if there were none.
pub run_call_nested :
    (d : Details) (nested : Calls) (p : Profiler) → run_call (call d nested) p ≡ finish d p
unfolding run_call
run_call_nested d nested p = ap (resume d p) (calls-off nested (record p { enabled = false }) refl)

-- The outermost calls, if the clock did not go back between the two readings of each.
abbrev pub Timed : Calls → Type 0
Timed done = Unit
Timed (next (call d nested) cs) = (d.begin ≤ d.end) × Timed cs

abbrev pub events : Calls → Profiler → List Event
events done p = []
events (next (call d nested) cs) p = event d p ∷ events cs p

-- Two states of a task that differ in nothing but the cells of the histograms.
abbrev pub SameButCells : Profiler → Profiler → Type 0
SameButCells p q =
    q ≡ record p { coll_time_stats = q.coll_time_stats; pt2pt_send_stats = q.pt2pt_send_stats }

histogram_stats-SameButCells :
    (d : Details) (p : Profiler)
    → d.begin ≤ d.end
    → (q : Profiler) × (histogram_stats d p ≡ some q) × SameButCells p q
unfolding histogram_stats collective_stats update_collective_stats update_pt2pt_stats
histogram_stats-SameButCells d p h = by_kind d.kind
  where
    by_kind :
        (k : Kind)
        → (q : Profiler) × (histogram_stats (record d { kind = k }) p ≡ some q) × SameButCells p q
    by_kind plain = (p, refl, refl)
    by_kind collective = elim (Bool-cases p.settings.do_collective_stats_report) [
      | inl e ↦ (
        update_collective_stats d.op (d.end - d.begin) d.mess_size d.comm_size p,
        rw (e, not_ltb d.end d.begin h),
        refl,
      )
      | inr e ↦ (p, rw e, refl)
    ]
    by_kind pt2pt = elim (Bool-cases p.settings.do_pt2pt_stats_report) [
      | inl e ↦ (update_pt2pt_stats d.op (d.end - d.begin) d.mess_size d.comm_size p, rw e, refl)
      | inr e ↦ (p, rw e, refl)
    ]

-- A task with other cells in its histograms.
abbrev with_cells : Histograms → Histograms → Profiler → Profiler
with_cells a b p = record p { coll_time_stats = a; pt2pt_send_stats = b }

update-with_cells :
    (p : Profiler) (e : Event) (a b : Histograms)
    → update_callsite_stats (with_cells a b p) e ≡ with_cells a b (update_callsite_stats p e)
unfolding update_callsite_stats
update-with_cells p e a b = elim (Bool-cases p.enabled) [ inl q ↦ simp q | inr q ↦ simp q ]

update_all-with_cells :
    (es : List Event) (p : Profiler) (a b : Histograms)
    → update_all (with_cells a b p) es ≡ with_cells a b (update_all p es)
unfolding update_all
update_all-with_cells [] p a b = refl
update_all-with_cells (e ∷ es) p a b =
    ap (λ q. update_all q es) (update-with_cells p e a b)
    ∙ update_all-with_cells es (update_callsite_stats p e) a b

update_same :
    (p : Profiler) (e : Event)
    → ((update_callsite_stats p e).enabled ≡ p.enabled)
      × ((update_callsite_stats p e).rank ≡ p.rank)
      × ((update_callsite_stats p e).settings ≡ p.settings)
unfolding update_callsite_stats
update_same p e = elim (Bool-cases p.enabled) [
  | inl q ↦ (simp q, simp q, simp q)
  | inr q ↦ (simp q, simp q, simp q)
]

events_congr :
    (cs : Calls) (p q : Profiler)
    → p.rank ≡ q.rank
    → p.settings ≡ q.settings
    → events cs p ≡ events cs q
unfolding event traced
events_congr done p q r s = refl
events_congr (next (call d nested) cs) p q r s = simp (r, s, events_congr cs p q r s)

finish-on :
    (d : Details) (p : Profiler)
    → d.begin ≤ d.end
    → p.enabled ≡ true
    → finish d p ≡ histogram_stats d (update_callsite_stats p (event d p))
unfolding finish
finish-on d p h on = simp (on, not_ltb d.end d.begin h)

finish-SameButCells :
    (d : Details) (p : Profiler)
    → d.begin ≤ d.end
    → p.enabled ≡ true
    → (q : Profiler) × (finish d p ≡ some q) × SameButCells (update_callsite_stats p (event d p)) q
finish-SameButCells d p h on =
    let (q, runs, cells) = histogram_stats-SameButCells d (update_callsite_stats p (event d p)) h in
    (q, finish-on d p h on ∙ runs, cells)

-- What the outermost calls of a program leave in the task: if the task is enabled and the clock does
-- not go back during a call, then, up to the cells of the histograms, the task is as after accounting
-- once for each outermost call, in their order, with its duration, its sizes and its call stack, and
-- for none of the calls that the library made within them.
pub run_calls-events :
    (cs : Calls) (p : Profiler)
    → Timed cs
    → p.enabled ≡ true
    → (q : Profiler) × (run_calls cs p ≡ some q) × SameButCells (update_all p (events cs p)) q
unfolding run_call update_all
run_calls-events done p timed on = (p, refl, refl)
run_calls-events (next (call d nested) cs) p timed on =
    let e = event d p in
    let p₁ = update_callsite_stats p e in
    let (q₁, runs, cells) = finish-SameButCells d p timed.0 on in
    let (enabled, rank, settings) = update_same p e in
    let (q, runs', cells') =
      run_calls-events cs q₁ timed.1 (ap (λ (r : Profiler). r.enabled) cells ∙ enabled ∙ on) in
    let es : events cs q₁ ≡ events cs p =
      events_congr cs q₁ p (ap (λ (r : Profiler). r.rank) cells ∙ rank)
        (ap (λ (r : Profiler). r.settings) cells ∙ settings) in
    (
      q,
      ap (λ o. and_then o (λ r. run_calls cs r)) (run_call_nested d nested p ∙ runs) ∙ runs',
      cells'
          ∙ ap (λ r. with_cells q.coll_time_stats q.pt2pt_send_stats r)
              (ap (λ l. update_all q₁ l) es
                ∙ ap (λ r. update_all r (events cs p)) cells
                ∙ update_all-with_cells (events cs p) p₁ q₁.coll_time_stats q₁.pt2pt_send_stats),
    )
