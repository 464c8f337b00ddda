-- ===== src/Wrappers/Bounds.antt =====
-- mpiPi.c, wrappers.c: the indices with which the wrappers write to the histograms.
use mpi_pv.Prelude.{ℕ, ◌-◌, ◌<◌, ◌^◌, none, arith, All}
use mpi_pv.Callsite.{mpi_base}
use mpi_pv.Histogram.{init_histogram, get_histogram_bin}
use mpi_pv.Histogram.Bins.{get_histogram_bin_brackets}
use mpi_pv.Wrappers.{Details}
use mpi_pv.Wrappers.Instances.{
  Arguments, typed_size, collective_call, collective_data, pt2pt_data, histogram_wrappers,
  mpi_allgather, mpi_allgatherv, mpi_allreduce, mpi_alltoall, mpi_alltoallv, mpi_barrier, mpi_bcast,
  mpi_bsend, mpi_gather, mpi_gatherv, mpi_ibsend, mpi_irsend, mpi_isend, mpi_issend, mpi_reduce,
  mpi_reduce_scatter, mpi_rsend, mpi_scatter, mpi_scatterv, mpi_send, mpi_sendrecv,
  mpi_sendrecv_replace, mpi_ssend,
}

-- mpiPi_DEF_END
abbrev pub def_end : ℕ
def_end = 1161

-- The three indices are within an array of the size [mpiPi_DEF_END - mpiPi_BASE][32][32].
abbrev pub InArray : Details → Type 0
InArray d =
    let h = init_histogram 7 32 none in
    (d.op - mpi_base < def_end - mpi_base)
    × (get_histogram_bin h d.comm_size < 32)
    × (get_histogram_bin h d.mess_size < 32)

in_array :
    (d : Details)
    → d.op - mpi_base < def_end - mpi_base
    → d.comm_size < 2 ^ 31
    → d.mess_size < 2 ^ 31
    → InArray d
in_array d o c m =
    let (bin, _, _) = get_histogram_bin_brackets d.comm_size c in
    let (bin', _, _) = get_histogram_bin_brackets d.mess_size m in (o, omega arith, omega arith)

-- A list of which each member has a property, one by one.
infixr 4 ◌▸◌
abbrev ◌▸◌ : {A B : Type 0} → A → B → A × B
a ▸ b = (a, b)

-- Every wrapper that updates a histogram, with a communicator size and a message size that an `int`
-- holds, writes within the array.
pub histogram_wrappers-InArray :
    (a : Arguments)
    → a.comm_size < 2 ^ 31
    → typed_size a < 2 ^ 31
    → All (λ wrapper. InArray (wrapper a)) histogram_wrappers
unfolding histogram_wrappers collective_call collective_data pt2pt_data mpi_allgather mpi_allgatherv
    mpi_allreduce mpi_alltoall mpi_alltoallv mpi_barrier mpi_bcast mpi_bsend mpi_gather mpi_gatherv
    mpi_ibsend mpi_irsend mpi_isend mpi_issend mpi_reduce mpi_reduce_scatter mpi_rsend mpi_scatter
    mpi_scatterv mpi_send mpi_sendrecv mpi_sendrecv_replace mpi_ssend
histogram_wrappers-InArray a c m =
    in_array (mpi_allgather a) (omega arith) c m
    ▸ in_array (mpi_allgatherv a) (omega arith) c m
    ▸ in_array (mpi_allreduce a) (omega arith) c m
    ▸ in_array (mpi_alltoall a) (omega arith) c m
    ▸ in_array (mpi_alltoallv a) (omega arith) c (omega arith)
    ▸ in_array (mpi_barrier a) (omega arith) c (omega arith)
    ▸ in_array (mpi_bcast a) (omega arith) c m
    ▸ in_array (mpi_bsend a) (omega arith) c m
    ▸ in_array (mpi_gather a) (omega arith) c m
    ▸ in_array (mpi_gatherv a) (omega arith) c m
    ▸ in_array (mpi_ibsend a) (omega arith) c m
    ▸ in_array (mpi_irsend a) (omega arith) c m
    ▸ in_array (mpi_isend a) (omega arith) c m
    ▸ in_array (mpi_issend a) (omega arith) c m
    ▸ in_array (mpi_reduce a) (omega arith) c m
    ▸ in_array (mpi_reduce_scatter a) (omega arith) c (omega arith)
    ▸ in_array (mpi_rsend a) (omega arith) c m
    ▸ in_array (mpi_scatter a) (omega arith) c m
    ▸ in_array (mpi_scatterv a) (omega arith) c (omega arith)
    ▸ in_array (mpi_send a) (omega arith) c m
    ▸ in_array (mpi_sendrecv a) (omega arith) c m
    ▸ in_array (mpi_sendrecv_replace a) (omega arith) c m
    ▸ in_array (mpi_ssend a) (omega arith) c m
    ▸ tt
