-- ===== src/Pcontrol/Clock.antt =====
-- pcontrol.c, mpiPi.c: the time that a task reports as profiled.
use mathlib.Core.Option
use mpi_pv.Prelude.{
  ℕ, ◌+◌, ◌-◌, ◌≤◌, ◌≡◌, refl, ap, ◌∙◌, Bool, true, false, Option, none, some, List, [], ◌∷◌, arith,
  if◌then◌else◌, inl, inr, Bool-cases, not_ltb,
}
use mpi_pv.Prelude.Int.{ℤ, pos}
use mpi_pv.State.{Profiler}
use mpi_pv.Pcontrol.{
  restart, Readings, is_flag, add_elapsed, report_clock, reset_callsite_data, pcontrol,
}

-- What a flag of `MPI_Pcontrol` asks for.
pub data Request : Type 0 where
  turn_off reset report turn_on : Request

abbrev pub request : ℤ → Request
request flag =
    if is_flag flag 0
    then turn_off
    else if is_flag flag 2
    then reset
    else if is_flag flag 3
    then report
    else if is_flag flag 4
    then report
    else turn_on

-- A sequence of calls; `none` if an assertion fails.
unfoldable pub pcontrol_all : List (ℤ × Readings) → Profiler → Option Profiler
pcontrol_all [] p = some p
pcontrol_all ((flag, t) ∷ calls) p = elim (pcontrol flag t p) [
  | none ↦ none
  | some q ↦ pcontrol_all calls q
]

-- Whether the profiler is on after a request, and when the request was done with.
abbrev pub on_after : Request → Bool → Bool
on_after turn_off on = false
on_after reset on = on
on_after report on = on
on_after turn_on on = true

abbrev pub done_at : Request → Readings → ℕ
done_at report t = t.done
done_at turn_off t = t.now
done_at reset t = t.now
done_at turn_on t = t.now

-- The time that passes between the calls, and after them until `now`, while the profiler is on.
abbrev pub time_on : Bool → ℕ → List (ℤ × Readings) → ℕ → ℕ
time_on on last [] now = if on then now - last else 0
time_on on last ((flag, t) ∷ calls) now =
    (if on then t.now - last else 0)
    + time_on (on_after (request flag) on) (done_at (request flag) t) calls now

-- A request that fits the state: off only when on, on only when off, and no reset.
abbrev pub Fits : Request → Bool → Type 0
Fits turn_off on = on ≡ true
Fits reset on = ⊥
Fits report on = Unit
Fits turn_on on = on ≡ false

-- Calls that fit, read on a clock that does not go back.
abbrev pub Proper : Bool → ℕ → List (ℤ × Readings) → ℕ → Type 0
Proper on last [] now = last ≤ now
Proper on last ((flag, t) ∷ calls) now =
    (last ≤ t.now)
    × (t.now ≤ t.done)
    × Fits (request flag) on
    × Proper (on_after (request flag) on) (done_at (request flag) t) calls now

-- What a task would report at `now`.
abbrev pub profiled : Profiler → ℕ → ℕ
profiled p now = p.cumulative_time + (if p.enabled then now - p.start_time else 0)

-- The task after a request, where the assertion holds.
abbrev outcome : Request → Readings → Profiler → Profiler
outcome turn_off t p = record p {
  end_time = t.now;
  cumulative_time = p.cumulative_time + t.now - p.start_time;
  enabled = false;
}
outcome reset t p = reset_callsite_data t.now p
outcome report t p =
    if p.enabled
    then record p {
      end_time = t.now;
      cumulative_time = p.cumulative_time + t.now - p.start_time;
      start_time = t.done;
    }
    else record p { end_time = t.now; start_time = t.done }
outcome turn_on t p = record p {
  enabled = true;
  enabled_count = p.enabled_count + 1;
  start_time = t.now;
}

elapsed :
    (now : ℕ) (p : Profiler)
    → p.start_time ≤ p.cumulative_time + now
    → add_elapsed now p
      ≡ some (record p { end_time = now; cumulative_time = p.cumulative_time + now - p.start_time })
unfolding add_elapsed
elapsed now p h = rw (not_ltb _ _ h)

report-eq :
    (t : Readings) (p : Profiler)
    → (p.enabled ≡ true → p.start_time ≤ p.cumulative_time + t.now)
    → Option.map (restart t.done) (report_clock t.now t.again p) ≡ some (outcome report t p)
unfolding report_clock
report-eq t p h = elim (Bool-cases p.enabled) [
  | inl e ↦ simp (e, elapsed t.now p (h e))
  | inr e ↦ simp e
]

pcontrol-outcome :
    (flag : ℤ) (t : Readings) (p : Profiler)
    → (p.enabled ≡ true → p.start_time ≤ t.now)
    → Fits (request flag) p.enabled
    → pcontrol flag t p ≡ some (outcome (request flag) t p)
unfolding pcontrol
pcontrol-outcome flag t p le fits = ground (arith, elapsed t.now p, report-eq t p)

-- The hypothesis about the clock that every step needs: `startTime` is the end of the last request.
abbrev Since : Profiler → ℕ → Type 0
Since p last = p.enabled ≡ true → p.start_time ≡ last

outcome-steps :
    (r : Request) (t : Readings) (p : Profiler) (last : ℕ)
    → Since p last
    → Fits r p.enabled
    → last ≤ t.now
    → ((outcome r t p).enabled ≡ on_after r p.enabled)
      × Since (outcome r t p) (done_at r t)
      × ((outcome r t p).cumulative_time
          ≡ p.cumulative_time + (if p.enabled then t.now - last else 0))
outcome-steps turn_off t p last s f le = ground arith
outcome-steps reset t p last s f le = absurd f
outcome-steps report t p last s f le = ground arith
outcome-steps turn_on t p last s f le = ground arith

-- Calls of `MPI_Pcontrol` that fit (off when on, on when off, a report at any time), on a clock that
-- does not go back: no assertion fails, and what the task would then report as profiled is what it
-- had before them and the time that passed while it was on. The time of a report does not count.
pub pcontrol_all-time_on :
    (calls : List (ℤ × Readings)) (p : Profiler) (last now : ℕ)
    → Since p last
    → Proper p.enabled last calls now
    → (q : Profiler) × (pcontrol_all calls p ≡ some q)
      × (profiled q now ≡ p.cumulative_time + time_on p.enabled last calls now)
unfolding pcontrol_all
pcontrol_all-time_on [] p last now s proper = (p, refl, ground arith)
pcontrol_all-time_on ((flag, t) ∷ calls) p last now s proper =
    let q = outcome (request flag) t p in
    let (state, start, total) = outcome-steps (request flag) t p last s proper.2 proper.0 in
    let (r, runs, time) =
      pcontrol_all-time_on calls q (done_at (request flag) t) now start (rw state (proper.3)) in
    (
      r,
      rw (pcontrol-outcome flag t p (λ e. omega (arith, s e, proper.0)) proper.2, pcontrol_all)
          runs,
      time ∙ omega (arith, total, ap (λ on. time_on on (done_at (request flag) t) calls now) state),
    )

abbrev pub at : ℕ → Readings
at now = record { now = now; again = now; done = now }

turn_off_at :
    (now : ℕ) (p : Profiler)
    → p.start_time ≤ p.cumulative_time + now
    → pcontrol (pos 0) (at now) p ≡ some (outcome turn_off (at now) p)
unfolding pcontrol
turn_off_at now p h = rw (elapsed now p h)

-- A task that is on and is told twice to turn off, at `t₁` and again at `t₂`, counts the time since
-- it was turned on in full both times: at `t₂` it reports, on top of what it had at `t₁`, all the time
-- from when it was turned on, though it was off since `t₁`.
pub turn_off_twice :
    (p : Profiler) (t₁ t₂ : ℕ)
    → p.enabled ≡ true
    → p.start_time ≤ t₁
    → t₁ ≤ t₂
    → (q : Profiler) × (pcontrol_all ((pos 0, at t₁) ∷ (pos 0, at t₂) ∷ []) p ≡ some q)
      × (profiled q t₂ ≡ profiled p t₁ + (t₂ - p.start_time))
unfolding pcontrol_all
turn_off_twice p t₁ t₂ on h h' =
    let q = outcome turn_off (at t₁) p in
    (
      outcome turn_off (at t₂) q,
      rw (turn_off_at t₁ p (omega arith), pcontrol_all)
          (rw (turn_off_at t₂ q (omega arith), pcontrol_all)),
      ground arith,
    )
