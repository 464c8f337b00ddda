-- ===== src/Report/Tasks/AppTime.antt =====
-- report.c: the time of the application, by which the percentages are taken, and the extremes.
use mpi_pv.Prelude.{
  ℕ, zero, suc, ◌+◌, ◌≤◌, ◌<◌, ◌≡◌, refl, ◌∙◌, inl, inr, Option, none, some, List, arith, get_or,
  ==_iff, ◌==◌, ltb, Bool-cases,
}
use mpi_pv.Callsite.{dbl_max}
use mpi_pv.Report.{Report}
use mpi_pv.Report.Tasks.{
  add_app_times, print_verbose_task_info, print_concise_task_info, Extremes, note_time, note_times,
  no_extremes,
}

-- The sum of `n` times from index `i` on
pub sum_times : ℕ → ℕ → List ℕ → ℕ
sum_times zero i times = 0
sum_times (suc n) i times = get_or times i 0 + sum_times n (i + 1) times

add_app_times-sum_times :
    (n i : ℕ) (times : List ℕ) (t : ℕ) → add_app_times n i times t ≡ t + sum_times n i times
unfolding add_app_times sum_times
add_app_times-sum_times zero i times t = omega arith
add_app_times-sum_times (suc n) i times t =
    omega (arith, add_app_times-sum_times n (i + 1) times (t + get_or times i 0))

-- The verbose report takes the sum of the times of the tasks for the time of the application; the
-- concise report adds it to what an earlier report has left, so that with any such rest its
-- percentages of the time of the application are too small.
pub print_task_info-app_time :
    (r : Report)
    → ((print_verbose_task_info r).0.totals.global_app_time
        ≡ sum_times r.size 0 r.global_task_app_time)
      × ((print_concise_task_info r).0.totals.global_app_time
          ≡ r.totals.global_app_time + sum_times r.size 0 r.global_task_app_time)
unfolding print_verbose_task_info print_concise_task_info
print_task_info-app_time r = (
  add_app_times-sum_times r.size 0 r.global_task_app_time 0 ∙ omega arith,
  add_app_times-sum_times r.size 0 r.global_task_app_time r.totals.global_app_time,
)

-- A rank that is set has the extreme; one that is not set leaves the start value.
abbrev pub HasRank : List ℕ → Option ℕ → ℕ → ℕ → Type 0
HasRank times none start value = value ≡ start
HasRank times (some i) start value = get_or times i 0 ≡ value

module _ (times : List ℕ) where
  abbrev IsRanked : Extremes → Type 0
  IsRanked e = HasRank times e.max_rank 0 e.greatest × HasRank times e.min_rank dbl_max e.least

  note_time-IsRanked :
      (i : ℕ) (e : Extremes) → IsRanked e → IsRanked (note_time i (get_or times i 0) e)
  unfolding note_time
  note_time-IsRanked i e h = (
    elim (Bool-cases (ltb e.greatest (get_or times i 0))) [ inl k ↦ rw k refl | inr k ↦ rw k h.0 ],
    elim (Bool-cases (ltb (get_or times i 0) e.least)) [ inl k ↦ rw k refl | inr k ↦ rw k h.1 ],
  )

  note_times-IsRanked : (n i : ℕ) (e : Extremes) → IsRanked e → IsRanked (note_times n i times e)
  unfolding note_times
  note_times-IsRanked zero i e h = h
  note_times-IsRanked (suc n) i e h = note_times-IsRanked n (i + 1) _ (note_time-IsRanked i e h)

  note_time-le :
      (i t : ℕ) (e : Extremes)
      → (e.greatest ≤ (note_time i t e).greatest)
        × ((note_time i t e).least ≤ e.least)
        × (t ≤ (note_time i t e).greatest)
        × ((note_time i t e).least ≤ t)
        × ((note_time i t e).total ≡ e.total + t)
  unfolding note_time
  note_time-le i t e = ground arith

  note_times-grow :
      (n i : ℕ) (e : Extremes)
      → (e.greatest ≤ (note_times n i times e).greatest)
        × ((note_times n i times e).least ≤ e.least)
        × ((note_times n i times e).total ≡ e.total + sum_times n i times)
  unfolding note_times sum_times
  note_times-grow zero i e = (omega arith, omega arith, omega arith)
  note_times-grow (suc n) i e =
      let t = get_or times i 0 in
      let (g, l, _, _, s) = note_time-le i t e in
      let (g', l', s') = note_times-grow n (i + 1) (note_time i t e) in
      (omega arith, omega arith, omega arith)

  note_times-cover :
      (n i j : ℕ) (e : Extremes)
      → i ≤ j
      → j < i + n
      → (get_or times j 0 ≤ (note_times n i times e).greatest)
        × ((note_times n i times e).least ≤ get_or times j 0)
  unfolding note_times
  note_times-cover zero i j e lo hi = absurd (omega arith)
  note_times-cover (suc n) i j e lo hi = elim (Bool-cases (i == j)) [
    | inl k ↦
        let (_, _, g, l, _) = note_time-le i (get_or times i 0) e in
        let (g', l', _) = note_times-grow n (i + 1) (note_time i (get_or times i 0) e) in
        rw (← ((==_iff i j).0 k)) (omega arith, omega arith)
    | inr k ↦ note_times-cover n (i + 1) j _ (ground (arith, k)) (omega arith)
  ]

-- The extremes that the concise report prints for one kind of time, of `n` tasks: every task's time
-- lies between them, a rank that is printed with one has this time, without a rank the extreme is
-- still 0 or DBL_MAX, and the total is the sum.
pub note_times-extremes :
    (n : ℕ) (times : List ℕ)
    → let e = note_times n 0 times no_extremes in
      ((j : ℕ) → j < n → (e.least ≤ get_or times j 0) × (get_or times j 0 ≤ e.greatest))
      × HasRank times e.max_rank 0 e.greatest
      × HasRank times e.min_rank dbl_max e.least
      × (e.total ≡ sum_times n 0 times)
note_times-extremes n times =
    let (high, low) = note_times-IsRanked times n 0 no_extremes (refl, refl) in
    (
      λ j h.
          let (g, l) = note_times-cover times n 0 j no_extremes (omega arith) (omega arith) in
          (l, g),
      high,
      low,
      (note_times-grow times n 0 no_extremes).2 ∙ omega arith,
    )
