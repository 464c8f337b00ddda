-- ===== src/Prelude/Int.antt =====
-- Signed integers over the native numbers, for the C values of type int that may be negative.
use mathlib.Core.Bool.{Bool, true}
use mpi_pv.Prelude.Tests.{ltb}
use Prim.Native.Nat.{ℕ}

-- `negsuc n` is -(n + 1).
pub data ℤ : Type 0 where
  pos : ℕ → ℤ
  negsuc : ℕ → ℤ

-- a < b for a C int a and a constant b that is not negative.
abbrev pub lt_ℕ : ℤ → ℕ → Bool
lt_ℕ (pos a) b = ltb a b
lt_ℕ (negsuc a) b = true
