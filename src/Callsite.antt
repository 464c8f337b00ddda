-- ===== src/Callsite.antt =====
-- mpiPi.h, mpiPi.c: the record of one call site, and the hash functions and comparators by which
-- the profiler's tables know it.
-- A `double` that holds a time in microseconds or a size in bytes is a whole number here. A pointer
-- is its address. An `unsigned` result is below 2 ^ 32.
pub mod Keys
use mpi_pv.Prelude.{
  ℕ, zero, suc, ◌-◌, ◌*◌, ◌+◌, ◌%◌, ◌^◌, bit_xor, compare, Ordering, Bool, Option, List, [], ◌∷◌,
  get_or,
}

abbrev pub mpi_base : ℕ
mpi_base = 1000

abbrev pub stack_depth_max : ℕ
stack_depth_max = 8

abbrev pub stats_cookie : ℕ
stats_cookie = 518641

-- DBL_MAX, and UINT_MAX, which is what `rank = -1` stores.
abbrev pub dbl_max : ℕ
dbl_max = (2 ^ 53 - 1) * 2 ^ 971

abbrev pub uint_max : ℕ
uint_max = 2 ^ 32 - 1

-- A C string without its final 0.
abbrev pub Text : Type 0
Text = List ℕ

-- `callsite_stats_t`
pub record CallsiteStats : Type 0 where
  pub op : ℕ
  pub rank : ℕ
  pub csid : ℕ
  pub count : ℕ
  pub cumulative_time : ℕ
  pub cumulative_time_squared : ℕ
  pub max_dur : ℕ
  pub min_dur : ℕ
  pub max_data_sent : ℕ
  pub min_data_sent : ℕ
  pub max_io : ℕ
  pub min_io : ℕ
  pub max_rma : ℕ
  pub min_rma : ℕ
  pub cumulative_data_sent : ℕ
  pub cumulative_io : ℕ
  pub cumulative_rma : ℕ
  pub arbitrary_message_count : ℕ
  pub site_data : List ℕ
  pub site_data_idx : ℕ
  pub pc : List ℕ
  pub filename : List (Option Text)
  pub functname : List Text
  pub lineno : List ℕ
  pub cookie : ℕ

-- `(unsigned) x`
abbrev pub to_unsigned : ℕ → ℕ
to_unsigned x = x % 2 ^ 32

-- `for (i = 0; i < MPIP_CALLSITE_STACK_DEPTH; i++) res ^= (unsigned) (long) pc[i];`
unfoldable pub xor_pcs : ℕ → ℕ → List ℕ → ℕ → ℕ
xor_pcs zero i pc res = res
xor_pcs (suc left) i pc res = xor_pcs left (suc i) pc (bit_xor res (to_unsigned (get_or pc i 0)))

unfoldable pub pc_hashkey : ℕ → CallsiteStats → ℕ
pc_hashkey depth csp = bit_xor (bit_xor (bit_xor 52271 csp.op) (xor_pcs depth 0 csp.pc 0)) csp.rank

-- The macro `express`: 1 for a greater field, -1 for a smaller one, and else what follows.
unfoldable pub express : ℕ → ℕ → Ordering → Ordering
express a b rest = elim (compare a b) [
  | Ordering.gt ↦ Ordering.gt
  | Ordering.lt ↦ Ordering.lt
  | Ordering.eq ↦ rest
]

unfoldable pub compare_pcs : ℕ → ℕ → List ℕ → List ℕ → Ordering
compare_pcs zero i pc₁ pc₂ = Ordering.eq
compare_pcs (suc left) i pc₁ pc₂ =
    express (get_or pc₁ i 0) (get_or pc₂ i 0) (compare_pcs left (suc i) pc₁ pc₂)

unfoldable pub pc_comparator : ℕ → CallsiteStats → CallsiteStats → Ordering
pc_comparator depth csp_1 csp_2 =
    express csp_1.op csp_2.op
      (express csp_1.rank csp_2.rank (compare_pcs depth 0 csp_1.pc csp_2.pc))

unfoldable pub src_hashkey : CallsiteStats → ℕ
src_hashkey csp =
    let res : ℕ = 0 in bit_xor (bit_xor (bit_xor (bit_xor 52271 csp.op) res) csp.rank) csp.csid

unfoldable pub src_comparator : CallsiteStats → CallsiteStats → Ordering
src_comparator csp_1 csp_2 =
    express csp_1.op csp_2.op
      (express csp_1.csid csp_2.csid (express csp_1.rank csp_2.rank Ordering.eq))

unfoldable pub mpi_id_hashkey : CallsiteStats → ℕ
mpi_id_hashkey csp = bit_xor 52271 csp.op

unfoldable pub op_comparator : CallsiteStats → CallsiteStats → Ordering
op_comparator csp_1 csp_2 = express csp_1.op csp_2.op Ordering.eq

unfoldable pub src_id_hashkey : CallsiteStats → ℕ
src_id_hashkey csp = let res : ℕ = 0 in bit_xor (bit_xor (bit_xor 52271 csp.op) res) csp.csid

unfoldable pub src_id_comparator : CallsiteStats → CallsiteStats → Ordering
src_id_comparator csp_1 csp_2 =
    express csp_1.op csp_2.op (express csp_1.csid csp_2.csid Ordering.eq)
