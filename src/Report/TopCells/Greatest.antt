-- ===== src/Report/TopCells/Greatest.antt =====
-- report.c: which cells of a histogram are written, and the values that are printed for a bin.
use mathlib.Core.Path.{subst}
use native.Mathlib.Nat.{pow-suc, add-zero, add-suc}
use mpi_pv.Prelude.{
  ℕ, zero, suc, ◌+◌, ◌-◌, ◌*◌, ◌^◌, ◌≤◌, ◌<◌, ◌≡◌, refl, ◌⊎◌, inl, inr, ◌↔◌, none, arith, leb,
  leb→le, Bool-cases,
}
use mpi_pv.State.{Histogram}
use mpi_pv.Histogram.{init_histogram, get_histogram_bin}
use mpi_pv.Histogram.Bins.{get_histogram_bin_brackets}
use mpi_pv.Report.TopCells.{get_histogram_bin_str}

pow-le : (a d : ℕ) → 2 ^ a ≤ 2 ^ (a + d)
pow-le a zero = rw (add-zero a) (omega arith)
pow-le a (suc d) = rw (add-suc a d) (omega (arith, pow-le a d, pow-suc 2 (a + d)))

-- Bins that start at one power of two and end before the next do not meet.
apart : (a b v : ℕ) → 8 * 2 ^ a ≤ v → v < 8 * 2 ^ suc b → a ≤ b
apart a b v lo hi = elim (Bool-cases (leb a b)) [
  | inl e ↦ leb→le a b e
  | inr e ↦
      let more : suc b + (a - suc b) ≡ a = ground (arith, e) in
      let grows : 2 ^ suc b ≤ 2 ^ a =
        subst (λ n. 2 ^ suc b ≤ 2 ^ n) more (pow-le (suc b) (a - suc b)) in
      absurd (omega arith)
]

-- What is known of a value in bin `b`, and that only one bin `k` has a range with the value.
abbrev Bracket : ℕ → ℕ → Type 0
Bracket b val = (val < 8 * 2 ^ b) × ((b ≡ 0) ⊎ (4 * 2 ^ b ≤ val))

abbrev InRange : ℕ × ℕ → ℕ → Type 0
InRange (least, greatest) val = (least ≤ val) × (val ≤ greatest)

one_pow : (a : ℕ) → 1 ≤ 2 ^ a
one_pow zero = omega arith
one_pow (suc a) = omega (arith, one_pow a, pow-suc 2 a)

abbrev init : Histogram
init = init_histogram 7 32 none

range_zero : get_histogram_bin_str init 0 ≡ (0, 7)
unfolding get_histogram_bin_str init_histogram
range_zero = refl

range_suc : (j : ℕ) → get_histogram_bin_str init (suc j) ≡ (8 * 2 ^ j, 8 * 2 ^ j * 2 - 1)
unfolding get_histogram_bin_str init_histogram
range_suc j = ground (arith, pred_suc j)
  where
    pred_suc : (j : ℕ) → suc j - 1 ≡ j
    pred_suc j = omega arith

in_own : (b val : ℕ) → Bracket b val → InRange (get_histogram_bin_str init b) val
in_own zero val b = rw range_zero (omega arith, omega (arith, b.0))
in_own (suc j) val (up, low) = rw (range_suc j) (lower low, omega (arith, pow-suc 2 j))
  where
    lower : (suc j ≡ 0) ⊎ (4 * 2 ^ suc j ≤ val) → 8 * 2 ^ j ≤ val
    lower (inl z) = absurd (omega arith)
    lower (inr le) = omega (arith, pow-suc 2 j)

only_own_zero : (b val : ℕ) → Bracket b val → val ≤ 7 → b ≡ 0
only_own_zero zero val b le = refl
only_own_zero (suc i) val (up, inl z) le = z
only_own_zero (suc i) val (up, inr low) le = absurd (omega (arith, one_pow i, pow-suc 2 i))

only_own_suc : (b j val : ℕ) → Bracket b val → 8 * 2 ^ j ≤ val → val < 8 * 2 ^ suc j → b ≡ suc j
only_own_suc zero j val (up, b) lo hi = absurd (omega (arith, one_pow j))
only_own_suc (suc i) j val (up, inl z) lo hi = absurd (omega arith)
only_own_suc (suc i) j val (up, inr low) lo hi =
    let ij = apart i j val (omega (arith, pow-suc 2 i)) hi in
    let ji = apart j i val lo up in omega arith

only_own : (b k val : ℕ) → Bracket b val → InRange (get_histogram_bin_str init k) val → b ≡ k
only_own b zero val br r =
    let r' = subst (λ p. InRange p val) range_zero r in only_own_zero b val br r'.1
only_own b (suc j) val br r =
    let r' = subst (λ p. InRange p val) (range_suc j) r in
    only_own_suc b j val br r'.0 (omega (arith, pow-suc 2 j, one_pow j, r'.1))

-- With the histograms that `mpiPi_init` sets up: the range that is printed for a bin has exactly the
-- values, of those that an `int` holds, that are counted in it.
pub get_histogram_bin_str-get_histogram_bin :
    (val k : ℕ)
    → val < 2 ^ 31
    → (get_histogram_bin (init_histogram 7 32 none) val ≡ k) ↔ (
        ((get_histogram_bin_str (init_histogram 7 32 none) k).0 ≤ val)
        × (val ≤ (get_histogram_bin_str (init_histogram 7 32 none) k).1))
get_histogram_bin_str-get_histogram_bin val k small =
    let (few, up, low) = get_histogram_bin_brackets val small in
    (
      λ e.
          subst (λ b. InRange (get_histogram_bin_str (init_histogram 7 32 none) b) val) e
            (in_own (get_histogram_bin (init_histogram 7 32 none) val) val (up, low)),
      only_own (get_histogram_bin (init_histogram 7 32 none) val) k val (up, low),
    )
