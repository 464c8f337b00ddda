-- ===== src/Histogram/Bins.antt =====
-- mpiPi.c: which values `get_histogram_bin` puts into a bin.
use native.Mathlib.Nat.{pow-suc}
use mpi_pv.Prelude.{
  ℕ, zero, suc, ◌+◌, ◌*◌, ◌/◌, ◌^◌, ◌≤◌, ◌<◌, ◌≡◌, refl, none, arith, ltb, ltb→lt, if◌then◌else◌,
  Bool-cases, inl, inr, ◌∙◌, ◌⊎◌,
}
use mpi_pv.Histogram.{init_histogram, bin_loop, get_histogram_bin}

-- The rounds that the loop makes.
rounds : ℕ → ℕ → ℕ
rounds zero wv = 0
rounds (suc left) wv = let rest = suc (rounds left (wv / 2)) in if ltb 7 wv then rest else 0

bin_loop-rounds : (left wv bin : ℕ) → bin_loop left 7 wv bin ≡ bin + rounds left wv
unfolding bin_loop rounds
bin_loop-rounds zero wv bin = omega arith
bin_loop-rounds (suc left) wv bin = ground (arith, bin_loop-rounds left (wv / 2) (bin + 1))

rounds_bracket :
    (left wv : ℕ)
    → wv < 8 * 2 ^ left
    → (wv < 8 * 2 ^ rounds left wv) × ((rounds left wv ≡ 0) ⊎ (8 * 2 ^ rounds left wv ≤ 2 * wv))
unfolding rounds
rounds_bracket zero wv h = (h, inl refl)
rounds_bracket (suc left) wv h = elim (Bool-cases (ltb 7 wv)) [
  | inr e ↦ rw e (ground (arith, e), inl refl)
  | inl e ↦
      let (up, low) = rounds_bracket left (wv / 2) (omega (arith, pow-suc 2 left)) in
      rw e (
        omega (arith, pow-suc 2 (rounds left (wv / 2))),
        inr (shifted (rounds left (wv / 2)) wv (ltb→lt 7 wv e) low),
      )
]
  where
    shifted : (r w : ℕ) → 7 < w → (r ≡ 0) ⊎ (8 * 2 ^ r ≤ 2 * (w / 2)) → 8 * 2 ^ suc r ≤ 2 * w
    shifted r w h (inl z) = rw z (omega arith)
    shifted r w h (inr le) = omega (arith, pow-suc 2 r)

rounds_few : (left k wv : ℕ) → wv < 8 * 2 ^ k → rounds left wv ≤ k
unfolding rounds
rounds_few zero k wv h = omega arith
rounds_few (suc left) zero wv h = ground arith
rounds_few (suc left) (suc k) wv h = elim (Bool-cases (ltb 7 wv)) [
  | inr e ↦ rw e (omega arith)
  | inl e ↦
      let fewer = rounds_few left k (wv / 2) (omega (arith, pow-suc 2 k)) in rw e (omega arith)
]

-- The histograms that `mpiPi_init` sets up: bin 0 takes the values up to 7, and bin k > 0 those from
-- 4 * 2 ^ k up to 8 * 2 ^ k - 1. A value that an `int` holds goes into a bin below 29, so below the
-- 32 that there are.
pub get_histogram_bin_brackets :
    (val : ℕ)
    → val < 2 ^ 31
    → let bin = get_histogram_bin (init_histogram 7 32 none) val in
      (bin < 29) × (val < 8 * 2 ^ bin) × ((bin ≡ 0) ⊎ (4 * 2 ^ bin ≤ val))
unfolding get_histogram_bin init_histogram
get_histogram_bin_brackets val h =
    let (up, low) = rounds_bracket 32 val (omega arith) in
    let few = rounds_few 32 28 val (omega arith) in
    let e : bin_loop 32 7 val 0 ≡ rounds 32 val = bin_loop-rounds 32 val 0 ∙ omega arith in
    rw e (omega arith, up, halved (rounds 32 val) val low)
  where
    halved : (r v : ℕ) → (r ≡ 0) ⊎ (8 * 2 ^ r ≤ 2 * v) → (r ≡ 0) ⊎ (4 * 2 ^ r ≤ v)
    halved r v (inl z) = inl z
    halved r v (inr le) = inr (omega arith)
