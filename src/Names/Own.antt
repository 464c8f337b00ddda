-- ===== src/Names/Own.antt =====
-- lookup.c, mpiPi_def.h, wrappers.c: the number that a wrapper accounts its calls under, and the name
-- that the report gives to this number.
use Prim.Native.String.{String}
use text.Mathlib.Text.{◌==◌ as str_eq}
use text.Mathlib.TextEquality.{eq_iff}
use mpi_pv.Prelude.{
  ℕ, ◌≡◌, refl, Bool, true, false, ◌&&◌, Option, none, some, List, [], ◌∷◌, All, arith, ◌==◌,
}
use mpi_pv.Names.{Lookup, entry, lookup_table}
use mpi_pv.Wrappers.{Details}
use mpi_pv.Wrappers.Instances.{
  Arguments, plain_call, collective_call, plain_data, collective_data, pt2pt_data, file_data,
  rma_data,
}
use mpi_pv.Wrappers.Instances.{
  mpi_accumulate, mpi_allgather, mpi_allgatherv, mpi_allreduce, mpi_alltoall, mpi_alltoallv,
  mpi_barrier, mpi_bcast, mpi_bsend, mpi_file_read, mpi_file_read_all, mpi_file_read_at,
  mpi_file_write, mpi_file_write_all, mpi_file_write_at, mpi_gather, mpi_gatherv, mpi_get,
  mpi_ibsend, mpi_irsend, mpi_isend, mpi_issend, mpi_put, mpi_reduce, mpi_reduce_scatter, mpi_rsend,
  mpi_scan, mpi_scatter, mpi_scatterv, mpi_send, mpi_sendrecv, mpi_sendrecv_replace, mpi_ssend,
}
use mpi_pv.Wrappers.Communicators.{
  mpi_attr_delete, mpi_attr_get, mpi_attr_put, mpi_cart_coords, mpi_cart_create, mpi_cart_get,
  mpi_cart_map, mpi_cart_rank, mpi_cart_shift, mpi_cart_sub, mpi_cartdim_get, mpi_comm_create,
  mpi_comm_dup, mpi_comm_free, mpi_comm_group, mpi_comm_remote_group, mpi_comm_remote_size,
  mpi_comm_split, mpi_comm_test_inter, mpi_dims_create, mpi_error_class, mpi_graph_create,
  mpi_graph_get, mpi_graph_map, mpi_graph_neighbors, mpi_graph_neighbors_count, mpi_graphdims_get,
  mpi_group_compare, mpi_group_difference, mpi_group_excl, mpi_group_free, mpi_group_incl,
  mpi_group_intersection, mpi_group_translate_ranks, mpi_group_union, mpi_intercomm_create,
  mpi_intercomm_merge, mpi_keyval_create, mpi_keyval_free, mpi_topo_test, mpi_type_commit,
  mpi_type_free, mpi_type_get_contents, mpi_type_get_envelope,
}
use mpi_pv.Wrappers.Requests.{
  mpi_bsend_init, mpi_buffer_attach, mpi_buffer_detach, mpi_cancel, mpi_file_close, mpi_file_open,
  mpi_file_preallocate, mpi_file_seek, mpi_file_set_view, mpi_iprobe, mpi_irecv, mpi_pack,
  mpi_probe, mpi_recv, mpi_recv_init, mpi_request_free, mpi_rsend_init, mpi_send_init,
  mpi_ssend_init, mpi_start, mpi_startall, mpi_test, mpi_testall, mpi_testany, mpi_testsome,
  mpi_unpack, mpi_wait, mpi_waitall, mpi_waitany, mpi_waitsome, mpi_win_complete, mpi_win_create,
  mpi_win_fence, mpi_win_free, mpi_win_get_group, mpi_win_lock, mpi_win_post, mpi_win_start,
  mpi_win_test, mpi_win_unlock, mpi_win_wait,
}

-- Every generated wrapper under the name of the function that it wraps.
unfoldable pub named_wrappers : List (String × (Arguments → Details))
named_wrappers =
    ("MPI_Accumulate", mpi_accumulate)
    ∷ ("MPI_Allgather", mpi_allgather)
    ∷ ("MPI_Allgatherv", mpi_allgatherv)
    ∷ ("MPI_Allreduce", mpi_allreduce)
    ∷ ("MPI_Alltoall", mpi_alltoall)
    ∷ ("MPI_Alltoallv", mpi_alltoallv)
    ∷ ("MPI_Attr_delete", mpi_attr_delete)
    ∷ ("MPI_Attr_get", mpi_attr_get)
    ∷ ("MPI_Attr_put", mpi_attr_put)
    ∷ ("MPI_Barrier", mpi_barrier)
    ∷ ("MPI_Bcast", mpi_bcast)
    ∷ ("MPI_Bsend", mpi_bsend)
    ∷ ("MPI_Bsend_init", mpi_bsend_init)
    ∷ ("MPI_Buffer_attach", mpi_buffer_attach)
    ∷ ("MPI_Buffer_detach", mpi_buffer_detach)
    ∷ ("MPI_Cancel", mpi_cancel)
    ∷ ("MPI_Cart_coords", mpi_cart_coords)
    ∷ ("MPI_Cart_create", mpi_cart_create)
    ∷ ("MPI_Cart_get", mpi_cart_get)
    ∷ ("MPI_Cart_map", mpi_cart_map)
    ∷ ("MPI_Cart_rank", mpi_cart_rank)
    ∷ ("MPI_Cart_shift", mpi_cart_shift)
    ∷ ("MPI_Cart_sub", mpi_cart_sub)
    ∷ ("MPI_Cartdim_get", mpi_cartdim_get)
    ∷ ("MPI_Comm_create", mpi_comm_create)
    ∷ ("MPI_Comm_dup", mpi_comm_dup)
    ∷ ("MPI_Comm_free", mpi_comm_free)
    ∷ ("MPI_Comm_group", mpi_comm_group)
    ∷ ("MPI_Comm_remote_group", mpi_comm_remote_group)
    ∷ ("MPI_Comm_remote_size", mpi_comm_remote_size)
    ∷ ("MPI_Comm_split", mpi_comm_split)
    ∷ ("MPI_Comm_test_inter", mpi_comm_test_inter)
    ∷ ("MPI_Dims_create", mpi_dims_create)
    ∷ ("MPI_Error_class", mpi_error_class)
    ∷ ("MPI_File_close", mpi_file_close)
    ∷ ("MPI_File_open", mpi_file_open)
    ∷ ("MPI_File_preallocate", mpi_file_preallocate)
    ∷ ("MPI_File_read", mpi_file_read)
    ∷ ("MPI_File_read_all", mpi_file_read_all)
    ∷ ("MPI_File_read_at", mpi_file_read_at)
    ∷ ("MPI_File_seek", mpi_file_seek)
    ∷ ("MPI_File_set_view", mpi_file_set_view)
    ∷ ("MPI_File_write", mpi_file_write)
    ∷ ("MPI_File_write_all", mpi_file_write_all)
    ∷ ("MPI_File_write_at", mpi_file_write_at)
    ∷ ("MPI_Gather", mpi_gather)
    ∷ ("MPI_Gatherv", mpi_gatherv)
    ∷ ("MPI_Get", mpi_get)
    ∷ ("MPI_Graph_create", mpi_graph_create)
    ∷ ("MPI_Graph_get", mpi_graph_get)
    ∷ ("MPI_Graph_map", mpi_graph_map)
    ∷ ("MPI_Graph_neighbors", mpi_graph_neighbors)
    ∷ ("MPI_Graph_neighbors_count", mpi_graph_neighbors_count)
    ∷ ("MPI_Graphdims_get", mpi_graphdims_get)
    ∷ ("MPI_Group_compare", mpi_group_compare)
    ∷ ("MPI_Group_difference", mpi_group_difference)
    ∷ ("MPI_Group_excl", mpi_group_excl)
    ∷ ("MPI_Group_free", mpi_group_free)
    ∷ ("MPI_Group_incl", mpi_group_incl)
    ∷ ("MPI_Group_intersection", mpi_group_intersection)
    ∷ ("MPI_Group_translate_ranks", mpi_group_translate_ranks)
    ∷ ("MPI_Group_union", mpi_group_union)
    ∷ ("MPI_Ibsend", mpi_ibsend)
    ∷ ("MPI_Intercomm_create", mpi_intercomm_create)
    ∷ ("MPI_Intercomm_merge", mpi_intercomm_merge)
    ∷ ("MPI_Iprobe", mpi_iprobe)
    ∷ ("MPI_Irecv", mpi_irecv)
    ∷ ("MPI_Irsend", mpi_irsend)
    ∷ ("MPI_Isend", mpi_isend)
    ∷ ("MPI_Issend", mpi_issend)
    ∷ ("MPI_Keyval_create", mpi_keyval_create)
    ∷ ("MPI_Keyval_free", mpi_keyval_free)
    ∷ ("MPI_Pack", mpi_pack)
    ∷ ("MPI_Probe", mpi_probe)
    ∷ ("MPI_Put", mpi_put)
    ∷ ("MPI_Recv", mpi_recv)
    ∷ ("MPI_Recv_init", mpi_recv_init)
    ∷ ("MPI_Reduce", mpi_reduce)
    ∷ ("MPI_Reduce_scatter", mpi_reduce_scatter)
    ∷ ("MPI_Request_free", mpi_request_free)
    ∷ ("MPI_Rsend", mpi_rsend)
    ∷ ("MPI_Rsend_init", mpi_rsend_init)
    ∷ ("MPI_Scan", mpi_scan)
    ∷ ("MPI_Scatter", mpi_scatter)
    ∷ ("MPI_Scatterv", mpi_scatterv)
    ∷ ("MPI_Send", mpi_send)
    ∷ ("MPI_Send_init", mpi_send_init)
    ∷ ("MPI_Sendrecv", mpi_sendrecv)
    ∷ ("MPI_Sendrecv_replace", mpi_sendrecv_replace)
    ∷ ("MPI_Ssend", mpi_ssend)
    ∷ ("MPI_Ssend_init", mpi_ssend_init)
    ∷ ("MPI_Start", mpi_start)
    ∷ ("MPI_Startall", mpi_startall)
    ∷ ("MPI_Test", mpi_test)
    ∷ ("MPI_Testall", mpi_testall)
    ∷ ("MPI_Testany", mpi_testany)
    ∷ ("MPI_Testsome", mpi_testsome)
    ∷ ("MPI_Topo_test", mpi_topo_test)
    ∷ ("MPI_Type_commit", mpi_type_commit)
    ∷ ("MPI_Type_free", mpi_type_free)
    ∷ ("MPI_Type_get_contents", mpi_type_get_contents)
    ∷ ("MPI_Type_get_envelope", mpi_type_get_envelope)
    ∷ ("MPI_Unpack", mpi_unpack)
    ∷ ("MPI_Wait", mpi_wait)
    ∷ ("MPI_Waitall", mpi_waitall)
    ∷ ("MPI_Waitany", mpi_waitany)
    ∷ ("MPI_Waitsome", mpi_waitsome)
    ∷ ("MPI_Win_complete", mpi_win_complete)
    ∷ ("MPI_Win_create", mpi_win_create)
    ∷ ("MPI_Win_fence", mpi_win_fence)
    ∷ ("MPI_Win_free", mpi_win_free)
    ∷ ("MPI_Win_get_group", mpi_win_get_group)
    ∷ ("MPI_Win_lock", mpi_win_lock)
    ∷ ("MPI_Win_post", mpi_win_post)
    ∷ ("MPI_Win_start", mpi_win_start)
    ∷ ("MPI_Win_test", mpi_win_test)
    ∷ ("MPI_Win_unlock", mpi_win_unlock)
    ∷ ("MPI_Win_wait", mpi_win_wait)
    ∷ []

-- Whether the table has at the wrapper's index the wrapper's own number and name.
abbrev has_own : Option Lookup → ℕ → String → Bool
has_own none op name = false
has_own (some (o, n)) op name = o == op && str_eq n name

all_own : Arguments → List (String × (Arguments → Details)) → Bool
all_own a [] = true
all_own a ((name, w) ∷ ws) = has_own (entry (w a).op) (w a).op name && all_own a ws

has_own_iff :
    (o : Option Lookup) (op : ℕ) (name : String) → has_own o op name ≡ true → o ≡ some (op, name)
has_own_iff none op name h = cc
has_own_iff (some (o, n)) op name h = ground (arith, eq_iff n name)

and_parts : (b c : Bool) → (b && c) ≡ true → (b ≡ true) × (c ≡ true)
and_parts true c h = (refl, h)
and_parts false c h = cc

all_own_sound :
    (a : Arguments) (ws : List (String × (Arguments → Details)))
    → all_own a ws ≡ true
    → All (λ (name, w). entry (w a).op ≡ some ((w a).op, name)) ws
unfolding all_own
all_own_sound a [] h = tt
all_own_sound a ((name, w) ∷ ws) h =
    let (here, rest) = and_parts _ _ h in (has_own_iff _ _ _ here, all_own_sound a ws rest)

all_own-named : (a : Arguments) → all_own a named_wrappers ≡ true
unfolding all_own named_wrappers entry lookup_table plain_call collective_call plain_data
    collective_data pt2pt_data file_data rma_data mpi_accumulate mpi_allgather mpi_allgatherv
    mpi_allreduce mpi_alltoall mpi_alltoallv mpi_attr_delete mpi_attr_get mpi_attr_put mpi_barrier
    mpi_bcast mpi_bsend mpi_bsend_init mpi_buffer_attach mpi_buffer_detach mpi_cancel
    mpi_cart_coords mpi_cart_create mpi_cart_get mpi_cart_map mpi_cart_rank mpi_cart_shift
    mpi_cart_sub mpi_cartdim_get mpi_comm_create mpi_comm_dup mpi_comm_free mpi_comm_group
    mpi_comm_remote_group mpi_comm_remote_size mpi_comm_split mpi_comm_test_inter mpi_dims_create
    mpi_error_class mpi_file_close mpi_file_open mpi_file_preallocate mpi_file_read
    mpi_file_read_all mpi_file_read_at mpi_file_seek mpi_file_set_view mpi_file_write
    mpi_file_write_all mpi_file_write_at mpi_gather mpi_gatherv mpi_get mpi_graph_create
    mpi_graph_get mpi_graph_map mpi_graph_neighbors mpi_graph_neighbors_count mpi_graphdims_get
    mpi_group_compare mpi_group_difference mpi_group_excl mpi_group_free mpi_group_incl
    mpi_group_intersection mpi_group_translate_ranks mpi_group_union mpi_ibsend mpi_intercomm_create
    mpi_intercomm_merge mpi_iprobe mpi_irecv mpi_irsend mpi_isend mpi_issend mpi_keyval_create
    mpi_keyval_free mpi_pack mpi_probe mpi_put mpi_recv mpi_recv_init mpi_reduce mpi_reduce_scatter
    mpi_request_free mpi_rsend mpi_rsend_init mpi_scan mpi_scatter mpi_scatterv mpi_send
    mpi_send_init mpi_sendrecv mpi_sendrecv_replace mpi_ssend mpi_ssend_init mpi_start mpi_startall
    mpi_test mpi_testall mpi_testany mpi_testsome mpi_topo_test mpi_type_commit mpi_type_free
    mpi_type_get_contents mpi_type_get_envelope mpi_unpack mpi_wait mpi_waitall mpi_waitany
    mpi_waitsome mpi_win_complete mpi_win_create mpi_win_fence mpi_win_free mpi_win_get_group
    mpi_win_lock mpi_win_post mpi_win_start mpi_win_test mpi_win_unlock mpi_win_wait
all_own-named a = refl

-- Whatever it is called with, every generated wrapper accounts its call under a number at whose
-- place the table of names has this number and the name of the wrapped function.
pub named_wrappers-entry :
    (a : Arguments) → All (λ (name, w). entry (w a).op ≡ some ((w a).op, name)) named_wrappers
named_wrappers-entry a = all_own_sound a named_wrappers (all_own-named a)
