-- ===== src/Wrappers/Instances.antt =====
-- wrappers.c: the wrappers that find a size or update a histogram, by the shape that each was generated
-- from. All other wrappers are `plain_call`s. The numbers of the operations are those of mpiPi_def.h.
use mpi_pv.Prelude.{ℕ, ◌*◌, Option, none, some, List, [], ◌∷◌}
use mpi_pv.Wrappers.{Kind, plain, collective, pt2pt, Details}

-- What a wrapper is called with: the readings of the clock, the call stack, the size of the
-- communicator, and the size of the data type, `none` for MPI_DATATYPE_NULL, with a count: those of
-- `datatype`, of `sendtype`, of `target_datatype` (MPI_Accumulate) or of `origin_datatype` (MPI_Get and
-- MPI_Put).
pub record Arguments : Type 0 where
  pub begin : ℕ
  pub end : ℕ
  pub call_stack : List ℕ
  pub comm_size : ℕ
  pub type_size : Option ℕ
  pub count : ℕ

-- `tsize * count`; it stays 0 for MPI_DATATYPE_NULL. The data type of a file or of remote memory access
-- is not null.
unfoldable pub typed_size : Arguments → ℕ
typed_size a = elim a.type_size [ none ↦ 0 | some tsize ↦ tsize * a.count ]

abbrev details : ℕ → Kind → ℕ → ℕ → ℕ → Arguments → Details
details op kind mess_size io_size rma_size a = record {
  op = op;
  kind = kind;
  begin = a.begin;
  end = a.end;
  call_stack = a.call_stack;
  mess_size = mess_size;
  io_size = io_size;
  rma_size = rma_size;
  comm_size = a.comm_size;
}

unfoldable pub plain_call : ℕ → Arguments → Details
plain_call op a = details op plain 0 0 0 a

unfoldable pub collective_call : ℕ → Arguments → Details
collective_call op a = details op collective 0 0 0 a

unfoldable pub plain_data : ℕ → Arguments → Details
plain_data op a = details op plain (typed_size a) 0 0 a

unfoldable pub collective_data : ℕ → Arguments → Details
collective_data op a = details op collective (typed_size a) 0 0 a

unfoldable pub pt2pt_data : ℕ → Arguments → Details
pt2pt_data op a = details op pt2pt (typed_size a) 0 0 a

unfoldable pub file_data : ℕ → Arguments → Details
file_data op a = details op plain 0 (typed_size a) 0 a

unfoldable pub rma_data : ℕ → Arguments → Details
rma_data op a = details op plain 0 0 (typed_size a) a

unfoldable pub mpi_accumulate : Arguments → Details
mpi_accumulate a = rma_data 1001 a

unfoldable pub mpi_allgather : Arguments → Details
mpi_allgather a = collective_data 1003 a

unfoldable pub mpi_allgatherv : Arguments → Details
mpi_allgatherv a = collective_data 1004 a

unfoldable pub mpi_allreduce : Arguments → Details
mpi_allreduce a = collective_data 1005 a

unfoldable pub mpi_alltoall : Arguments → Details
mpi_alltoall a = collective_data 1006 a

unfoldable pub mpi_alltoallv : Arguments → Details
mpi_alltoallv a = collective_call 1007 a

unfoldable pub mpi_barrier : Arguments → Details
mpi_barrier a = collective_call 1011 a

unfoldable pub mpi_bcast : Arguments → Details
mpi_bcast a = collective_data 1012 a

unfoldable pub mpi_bsend : Arguments → Details
mpi_bsend a = pt2pt_data 1013 a

unfoldable pub mpi_file_read : Arguments → Details
mpi_file_read a = file_data 1047 a

unfoldable pub mpi_file_read_all : Arguments → Details
mpi_file_read_all a = file_data 1048 a

unfoldable pub mpi_file_read_at : Arguments → Details
mpi_file_read_at a = file_data 1049 a

unfoldable pub mpi_file_write : Arguments → Details
mpi_file_write a = file_data 1052 a

unfoldable pub mpi_file_write_all : Arguments → Details
mpi_file_write_all a = file_data 1053 a

unfoldable pub mpi_file_write_at : Arguments → Details
mpi_file_write_at a = file_data 1054 a

unfoldable pub mpi_gather : Arguments → Details
mpi_gather a = collective_data 1057 a

unfoldable pub mpi_gatherv : Arguments → Details
mpi_gatherv a = collective_data 1058 a

unfoldable pub mpi_get : Arguments → Details
mpi_get a = rma_data 1059 a

unfoldable pub mpi_ibsend : Arguments → Details
mpi_ibsend a = pt2pt_data 1082 a

unfoldable pub mpi_irsend : Arguments → Details
mpi_irsend a = pt2pt_data 1090 a

unfoldable pub mpi_isend : Arguments → Details
mpi_isend a = pt2pt_data 1091 a

unfoldable pub mpi_issend : Arguments → Details
mpi_issend a = pt2pt_data 1092 a

unfoldable pub mpi_put : Arguments → Details
mpi_put a = rma_data 1100 a

unfoldable pub mpi_reduce : Arguments → Details
mpi_reduce a = collective_data 1103 a

unfoldable pub mpi_reduce_scatter : Arguments → Details
mpi_reduce_scatter a = collective_call 1104 a

unfoldable pub mpi_rsend : Arguments → Details
mpi_rsend a = pt2pt_data 1106 a

unfoldable pub mpi_scan : Arguments → Details
mpi_scan a = plain_data 1108 a

unfoldable pub mpi_scatter : Arguments → Details
mpi_scatter a = collective_data 1109 a

unfoldable pub mpi_scatterv : Arguments → Details
mpi_scatterv a = collective_call 1110 a

unfoldable pub mpi_send : Arguments → Details
mpi_send a = pt2pt_data 1111 a

unfoldable pub mpi_sendrecv : Arguments → Details
mpi_sendrecv a = pt2pt_data 1113 a

unfoldable pub mpi_sendrecv_replace : Arguments → Details
mpi_sendrecv_replace a = pt2pt_data 1114 a

unfoldable pub mpi_ssend : Arguments → Details
mpi_ssend a = pt2pt_data 1115 a

-- The wrappers that update a histogram.
unfoldable pub histogram_wrappers : List (Arguments → Details)
histogram_wrappers =
    mpi_allgather ∷ mpi_allgatherv ∷ mpi_allreduce ∷ mpi_alltoall ∷ mpi_alltoallv ∷ mpi_barrier
    ∷ mpi_bcast ∷ mpi_bsend ∷ mpi_gather ∷ mpi_gatherv ∷ mpi_ibsend ∷ mpi_irsend ∷ mpi_isend
    ∷ mpi_issend ∷ mpi_reduce ∷ mpi_reduce_scatter ∷ mpi_rsend ∷ mpi_scatter ∷ mpi_scatterv
    ∷ mpi_send ∷ mpi_sendrecv ∷ mpi_sendrecv_replace ∷ mpi_ssend ∷ []
