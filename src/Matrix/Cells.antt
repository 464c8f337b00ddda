-- ===== src/Matrix/Cells.antt =====
-- mpiPi.c: every cell of a merged histogram is the sum of the tasks' cells.
use mpi_pv.Prelude.{
  ℕ, zero, suc, ◌+◌, ◌*◌, ◌<◌, ◌≡◌, refl, ap, ◌∙◌, true, List, [], ◌∷◌, ◌++◌, arith, lt→ltb, get_or,
  length, length-append,
}
use mpi_pv.State.{Profiler, Histograms}
use mpi_pv.Matrix.{
  operations, for_each, cell_of, row, plane, flat, added, reduce, unflat, flats, merged_stats,
  merge_collective_stats, merge_pt2pt_stats,
}

get_or-front : (xs ys : List ℕ) (i : ℕ) → i < length xs → get_or (xs ++ ys) i 0 ≡ get_or xs i 0
get_or-front [] ys i h = absurd (omega arith)
get_or-front (x ∷ xs) ys zero h = refl
get_or-front (x ∷ xs) ys (suc i) h = get_or-front xs ys i (omega (arith, h))

get_or-back :
    (xs ys : List ℕ) (n i : ℕ) → length xs ≡ n → get_or (xs ++ ys) (n + i) 0 ≡ get_or ys i 0
get_or-back [] ys n i e = rw (← e) (ap (λ j. get_or ys j 0) (omega arith))
get_or-back (x ∷ xs) ys n i e = rw (← e) (
    ap (λ j. get_or (x ∷ (xs ++ ys)) j 0) (step (length xs) i)
    ∙ get_or-back xs ys (length xs) i refl)
  where
    step : (m i : ℕ) → suc m + i ≡ suc (m + i)
    step m i = omega arith

-- A place in what the loop appended, if every round appends `n` numbers.
get_or-for_each :
    (n left x : ℕ) (body : ℕ → List ℕ)
    → ((y : ℕ) → length (body y) ≡ n)
    → (k r : ℕ) → k < left
    → r < n
    → get_or (for_each left x body) (k * n + r) 0 ≡ get_or (body (x + k)) r 0
unfolding for_each
get_or-for_each n zero x body e k r hk hr = absurd (omega arith)
get_or-for_each n (suc left) x body e zero r hk hr =
    ap (λ j. get_or (body x ++ for_each left (suc x) body) j 0) (omega arith)
    ∙ get_or-front (body x) (for_each left (suc x) body) r (omega (arith, e x, hr))
    ∙ ap (λ j. get_or (body j) r 0) (omega arith)
get_or-for_each n (suc left) x body e (suc k) r hk hr =
    ap (λ j. get_or (body x ++ for_each left (suc x) body) j 0) (shifted k n r)
    ∙ get_or-back (body x) (for_each left (suc x) body) n (k * n + r) (e x)
    ∙ get_or-for_each n left (suc x) body e k r (omega (arith, hk)) hr
    ∙ ap (λ j. get_or (body j) r 0) (omega arith)
  where
    shifted : (k n r : ℕ) → suc k * n + r ≡ n + (k * n + r)
    shifted k n r = omega arith

get_or-loop :
    (n left : ℕ) (body : ℕ → List ℕ)
    → ((y : ℕ) → length (body y) ≡ n)
    → (k r : ℕ) → k < left
    → r < n
    → get_or (for_each left 0 body) (k * n + r) 0 ≡ get_or (body k) r 0
get_or-loop n left body e k r hk hr =
    get_or-for_each n left 0 body e k r hk hr ∙ ap (λ j. get_or (body j) r 0) (omega arith)

length-for_each :
    (n left x : ℕ) (body : ℕ → List ℕ)
    → ((y : ℕ) → length (body y) ≡ n)
    → length (for_each left x body) ≡ left * n
unfolding for_each
length-for_each n zero x body e = omega arith
length-for_each n (suc left) x body e = omega (
  arith,
  length-append (body x) (for_each left (suc x) body),
  e x,
  length-for_each n left (suc x) body e,
)

length-row : (stats : Histograms) (x y : ℕ) → length (row stats x y) ≡ 32
length-row stats x y = length-for_each 1 32 0 (cell_of stats x y) (λ z. refl) ∙ omega arith

length-plane : (stats : Histograms) (x : ℕ) → length (plane stats x) ≡ 1024
length-plane stats x =
    length-for_each 32 32 0 (row stats x) (λ y. length-row stats x y) ∙ omega arith

-- The three loops put the cell [x][y][z] at its place.
get_or-flat :
    (stats : Histograms) (x y z : ℕ)
    → x < operations
    → y < 32
    → z < 32
    → get_or (flat stats) ((x * 32 + y) * 32 + z) 0 ≡ stats x y z
unfolding flat
get_or-flat stats x y z hx hy hz =
    ap (λ j. get_or (for_each operations 0 (plane stats)) j 0) (omega arith)
    ∙ get_or-loop 1024 operations (plane stats) (λ a. length-plane stats a) x (y * 32 + z) hx
        (omega (arith, hy, hz))
    ∙ get_or-loop 32 32 (row stats x) (λ b. length-row stats x b) y z hy hz
    ∙ ap (λ j. get_or (row stats x y) j 0) (omega arith)
    ∙ get_or-loop 1 32 (cell_of stats x y) (λ c. refl) z 0 hz (omega arith)

get_or-added : (xs ys : List ℕ) (i : ℕ) → get_or (added xs ys) i 0 ≡ get_or xs i 0 + get_or ys i 0
get_or-added [] ys i = omega arith
get_or-added (x ∷ xs) [] i = omega arith
get_or-added (x ∷ xs) (y ∷ ys) zero = refl
get_or-added (x ∷ xs) (y ∷ ys) (suc i) = get_or-added xs ys i

-- The sum of one cell over tasks.
abbrev pub sum_over : (Profiler → Histograms) → List Profiler → ℕ → ℕ → ℕ → ℕ
sum_over stats [] x y z = 0
sum_over stats (p ∷ ps) x y z = stats p x y z + sum_over stats ps x y z

module _ (x y z : ℕ) (hx : x < operations) (hy : y < 32) (hz : z < 32) where
  get_or-reduce :
      (stats : Profiler → Histograms) (tasks : List Profiler)
      → get_or (reduce (flats stats tasks)) ((x * 32 + y) * 32 + z) 0 ≡ sum_over stats tasks x y z
  unfolding reduce
  get_or-reduce stats [] = refl
  get_or-reduce stats (p ∷ ps) =
      get_or-added (flat (stats p)) (reduce (flats stats ps)) ((x * 32 + y) * 32 + z)
      ∙ omega (arith, get_or-flat (stats p) x y z hx hy hz, get_or-reduce stats ps)

  merged_stats-sum_over :
      (uninitialised : List ℕ) (stats : Profiler → Histograms) (tasks : List Profiler)
      (own : Histograms)
      → merged_stats true uninitialised stats tasks own x y z ≡ sum_over stats tasks x y z
  unfolding merged_stats unflat
  merged_stats-sum_over uninitialised stats tasks own =
      rw (lt→ltb x operations hx, lt→ltb y 32 hy, lt→ltb z 32 hz) (get_or-reduce stats tasks)

  -- With the report on collective calls, every cell of the collector's collective histogram becomes the
  -- sum of this cell over all tasks.
  pub merge_collective_stats-sum_over :
      (uninitialised : List ℕ) (tasks : List Profiler) (p : Profiler)
      → p.settings.do_collective_stats_report ≡ true
      → (merge_collective_stats true uninitialised tasks p).coll_time_stats x y z
        ≡ sum_over (λ q. q.coll_time_stats) tasks x y z
  unfolding merge_collective_stats
  merge_collective_stats-sum_over uninitialised tasks p on =
      simp on (merged_stats-sum_over uninitialised (λ q. q.coll_time_stats) tasks p.coll_time_stats)

  -- With the report on point-to-point calls, every cell of the collector's point-to-point histogram
  -- becomes the sum of this cell over all tasks.
  pub merge_pt2pt_stats-sum_over :
      (uninitialised : List ℕ) (tasks : List Profiler) (p : Profiler)
      → p.settings.do_pt2pt_stats_report ≡ true
      → (merge_pt2pt_stats true uninitialised tasks p).pt2pt_send_stats x y z
        ≡ sum_over (λ q. q.pt2pt_send_stats) tasks x y z
  unfolding merge_pt2pt_stats
  merge_pt2pt_stats-sum_over uninitialised tasks p on =
      simp on
        (merged_stats-sum_over uninitialised (λ q. q.pt2pt_send_stats) tasks p.pt2pt_send_stats)
