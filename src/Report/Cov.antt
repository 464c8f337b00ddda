-- ===== src/Report/Cov.antt =====
-- report.c: `calc_COV` as the standard deviation over the mean.
use mathlib.Core.Path.{subst}
use native.Mathlib.Nat.{zero-add, add_comm, mul-le-mul_left}
use mpi_pv.Prelude.{
  ℕ, zero, suc, ◌+◌, ◌-◌, ◌*◌, ◌≤◌, ◌≡◌, refl, List, [], ◌∷◌, ◌++◌, arith, length, ltb, leb, sym,
  leb→le, ◌==◌, true, false, if◌then◌else◌, Bool-cases, inl, inr, ◌∙◌, ap,
}
use mpi_pv.Report.{Cell, quot, root, sum_data, square_distance, sum_squares, calc_cov}

-- The sum of the data, and of their squares
abbrev pub total : List ℕ → ℕ
total [] = 0
total (x ∷ xs) = x + total xs

abbrev pub squares : List ℕ → ℕ
squares [] = 0
squares (x ∷ xs) = x * x + squares xs

apart : (a d : ℕ) → d * d + 2 * (a * (a + d)) ≡ a * a + (a + d) * (a + d)
apart a d = grind arith

square_distance_le : (a b : ℕ) → a ≤ b → square_distance a b + 2 * (a * b) ≡ a * a + b * b
square_distance_le a b h =
    let e : b ≡ a + (b - a) = omega arith in
    let p : a - b ≡ 0 = omega arith in
    rw (p, zero-add)
      (subst (λ c. (b - a) * (b - a) + 2 * (a * c) ≡ a * a + c * c) (sym e) (apart a (b - a)))

flip :
    (a b : ℕ)
    → square_distance b a + 2 * (b * a) ≡ b * b + a * a
    → square_distance b a + 2 * (a * b) ≡ a * a + b * b
flip a b h = grind arith

square_distance_comm :
    (a b : ℕ) → square_distance a b + 2 * (a * b) ≡ square_distance b a + 2 * (a * b)
square_distance_comm a b = rw (add_comm (a - b) (b - a)) refl

square_distance_lem : (a b : ℕ) → square_distance a b + 2 * (a * b) ≡ a * a + b * b
square_distance_lem a b = elim (Bool-cases (leb a b)) [
  | inl e ↦ square_distance_le a b (leb→le a b e)
  | inr e ↦ square_distance_comm a b ∙ flip a b (square_distance_le b a (ground (arith, e)))
]

with_square :
    (k n t x s d q rest : ℕ)
    → s + 2 * (n * x * t) ≡ n * x * (n * x) + t * t
    → rest + 2 * (n * t * d) ≡ n * n * q + k * (t * t)
    → s + rest + 2 * (n * t * (x + d)) ≡ n * n * (x * x + q) + suc k * (t * t)
with_square k n t x s d q rest h ih = grind arith

sum_data-total : (xs ys : List ℕ) → sum_data (length xs) (xs ++ ys) ≡ total xs
unfolding sum_data
sum_data-total [] ys = refl
sum_data-total (x ∷ xs) ys = ap (λ t. x + t) (sum_data-total xs ys)

sum_squares-squares :
    (n t : ℕ) (xs ys : List ℕ)
    → sum_squares (length xs) n t (xs ++ ys) + 2 * (n * t * total xs)
      ≡ n * n * squares xs + length xs * (t * t)
unfolding sum_squares
sum_squares-squares n t [] ys = grind arith
sum_squares-squares n t (x ∷ xs) ys =
    with_square (length xs) n t x _ (total xs) (squares xs) _ (square_distance_lem (n * x) t)
      (sum_squares-squares n t xs ys)

squares_le : (xs : List ℕ) → squares xs ≤ total xs * total xs
squares_le [] = omega arith
squares_le (x ∷ xs) = grind (arith, squares_le xs)

bound :
    (n v t q : ℕ)
    → v + 2 * (n * t * t) ≡ n * n * q + n * (t * t)
    → q ≤ t * t
    → v ≤ n * ((n - 1) * (t * t))
bound zero v t q h le = omega (arith, h)
bound (suc m) v t q h le =
    let more : suc m * suc m * q ≤ suc m * suc m * (t * t) = mul-le-mul_left (suc m * suc m) le in
    grind arith

one_pass :
    (n v t q : ℕ) → v + 2 * (n * t * t) ≡ n * n * q + n * (t * t) → v + n * (t * t) ≡ n * n * q
one_pass n v t q h = grind arith

-- With no two data or only zeros the coefficient is 0. Else it is the root of a quotient of `v`.
abbrev pub IsCov : List ℕ → Cell → Type 0
IsCov xs c =
    let n = length xs in
    let t = total xs in
    if leb n 1
    then c ≡ quot 0 1
    else if t == 0
    then c ≡ quot 0 1
    else (v : ℕ) × (c ≡ root v ((n - 1) * (t * t)))
      × (v + n * (t * t) ≡ n * n * squares xs)
      × (v ≤ n * ((n - 1) * (t * t)))

-- Of the first `n` of the data, and whatever follows them: with fewer than two, or with only zeros, the
-- coefficient of variation is 0; and else it is the root of `(n * n * q - n * t * t) / ((n - 1) * t * t)`,
-- where `t` is their sum and `q` the sum of their squares, as of the standard deviation of a sample over
-- its mean, and this is at most the root of `n`.
pub calc_cov-variance : (xs ys : List ℕ) → IsCov xs (calc_cov (xs ++ ys) (length xs))
unfolding calc_cov
calc_cov-variance xs ys = elim (Bool-cases (leb (length xs) 1)) [
  | inl e ↦ rw e refl
  | inr e ↦
      rw (e, sum_data-total xs ys)
        (elim (Bool-cases (total xs == 0)) [
          | inl z ↦ let no : ltb 0 (total xs) ≡ false = ground (arith, z) in rw (z, no) refl
          | inr z ↦
              let yes : ltb 0 (total xs) ≡ true = ground (arith, z) in
              let n = length xs in
              let t = total xs in
              let h = sum_squares-squares n t xs ys in
              rw (z, yes)
                (
                  sum_squares n n t (xs ++ ys),
                  refl,
                  one_pass n _ t (squares xs) h,
                  bound n _ t (squares xs) h (squares_le xs),
                )
        ])
]
