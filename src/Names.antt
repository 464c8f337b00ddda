-- ===== src/Names.antt =====
-- lookup.c: the table `mpiPi_lookup` of the operations and their names, which the report reads at
-- the index `op - mpiPi_BASE`. The last entry of the array, 0 and NULL, ends it.
pub mod Own
use Prim.Native.Char.{code}
use Prim.Native.String.{String}
use mpi_pv.Prelude.{ℕ, zero, suc, ◌-◌, Option, none, some, List, [], ◌∷◌}
use mpi_pv.Callsite.{Text, mpi_base}

-- The bytes of a text.
abbrev pub codes : String → Text
codes String.[] = []
codes (String.◌∷◌ c s) = code c ∷ codes s

-- `mpiPi_lookup_t`
abbrev pub Lookup : Type 0
Lookup = ℕ × String

unfoldable pub lookup_table : List Lookup
lookup_table =
    (1000, "MPI_Abort")
    ∷ (1001, "MPI_Accumulate")
    ∷ (1002, "MPI_Address")
    ∷ (1003, "MPI_Allgather")
    ∷ (1004, "MPI_Allgatherv")
    ∷ (1005, "MPI_Allreduce")
    ∷ (1006, "MPI_Alltoall")
    ∷ (1007, "MPI_Alltoallv")
    ∷ (1008, "MPI_Attr_delete")
    ∷ (1009, "MPI_Attr_get")
    ∷ (1010, "MPI_Attr_put")
    ∷ (1011, "MPI_Barrier")
    ∷ (1012, "MPI_Bcast")
    ∷ (1013, "MPI_Bsend")
    ∷ (1014, "MPI_Bsend_init")
    ∷ (1015, "MPI_Buffer_attach")
    ∷ (1016, "MPI_Buffer_detach")
    ∷ (1017, "MPI_Cancel")
    ∷ (1018, "MPI_Cart_coords")
    ∷ (1019, "MPI_Cart_create")
    ∷ (1020, "MPI_Cart_get")
    ∷ (1021, "MPI_Cart_map")
    ∷ (1022, "MPI_Cart_rank")
    ∷ (1023, "MPI_Cart_shift")
    ∷ (1024, "MPI_Cart_sub")
    ∷ (1025, "MPI_Cartdim_get")
    ∷ (1026, "MPI_Comm_compare")
    ∷ (1027, "MPI_Comm_create")
    ∷ (1028, "MPI_Comm_dup")
    ∷ (1029, "MPI_Comm_free")
    ∷ (1030, "MPI_Comm_group")
    ∷ (1031, "MPI_Comm_rank")
    ∷ (1032, "MPI_Comm_remote_group")
    ∷ (1033, "MPI_Comm_remote_size")
    ∷ (1034, "MPI_Comm_size")
    ∷ (1035, "MPI_Comm_split")
    ∷ (1036, "MPI_Comm_test_inter")
    ∷ (1037, "MPI_Dims_create")
    ∷ (1038, "MPI_Errhandler_create")
    ∷ (1039, "MPI_Errhandler_free")
    ∷ (1040, "MPI_Errhandler_get")
    ∷ (1041, "MPI_Errhandler_set")
    ∷ (1042, "MPI_Error_class")
    ∷ (1043, "MPI_Error_string")
    ∷ (1044, "MPI_File_close")
    ∷ (1045, "MPI_File_open")
    ∷ (1046, "MPI_File_preallocate")
    ∷ (1047, "MPI_File_read")
    ∷ (1048, "MPI_File_read_all")
    ∷ (1049, "MPI_File_read_at")
    ∷ (1050, "MPI_File_seek")
    ∷ (1051, "MPI_File_set_view")
    ∷ (1052, "MPI_File_write")
    ∷ (1053, "MPI_File_write_all")
    ∷ (1054, "MPI_File_write_at")
    ∷ (1055, "MPI_Finalize")
    ∷ (1056, "MPI_Finalized")
    ∷ (1057, "MPI_Gather")
    ∷ (1058, "MPI_Gatherv")
    ∷ (1059, "MPI_Get")
    ∷ (1060, "MPI_Get_count")
    ∷ (1061, "MPI_Get_elements")
    ∷ (1062, "MPI_Get_processor_name")
    ∷ (1063, "MPI_Get_version")
    ∷ (1064, "MPI_Graph_create")
    ∷ (1065, "MPI_Graph_get")
    ∷ (1066, "MPI_Graph_map")
    ∷ (1067, "MPI_Graph_neighbors")
    ∷ (1068, "MPI_Graph_neighbors_count")
    ∷ (1069, "MPI_Graphdims_get")
    ∷ (1070, "MPI_Group_compare")
    ∷ (1071, "MPI_Group_difference")
    ∷ (1072, "MPI_Group_excl")
    ∷ (1073, "MPI_Group_free")
    ∷ (1074, "MPI_Group_incl")
    ∷ (1075, "MPI_Group_intersection")
    ∷ (1076, "MPI_Group_range_excl")
    ∷ (1077, "MPI_Group_range_incl")
    ∷ (1078, "MPI_Group_rank")
    ∷ (1079, "MPI_Group_size")
    ∷ (1080, "MPI_Group_translate_ranks")
    ∷ (1081, "MPI_Group_union")
    ∷ (1082, "MPI_Ibsend")
    ∷ (1083, "MPI_Init")
    ∷ (1084, "MPI_Init_thread")
    ∷ (1085, "MPI_Initialized")
    ∷ (1086, "MPI_Intercomm_create")
    ∷ (1087, "MPI_Intercomm_merge")
    ∷ (1088, "MPI_Iprobe")
    ∷ (1089, "MPI_Irecv")
    ∷ (1090, "MPI_Irsend")
    ∷ (1091, "MPI_Isend")
    ∷ (1092, "MPI_Issend")
    ∷ (1093, "MPI_Keyval_create")
    ∷ (1094, "MPI_Keyval_free")
    ∷ (1095, "MPI_Op_create")
    ∷ (1096, "MPI_Op_free")
    ∷ (1097, "MPI_Pack")
    ∷ (1098, "MPI_Pack_size")
    ∷ (1099, "MPI_Probe")
    ∷ (1100, "MPI_Put")
    ∷ (1101, "MPI_Recv")
    ∷ (1102, "MPI_Recv_init")
    ∷ (1103, "MPI_Reduce")
    ∷ (1104, "MPI_Reduce_scatter")
    ∷ (1105, "MPI_Request_free")
    ∷ (1106, "MPI_Rsend")
    ∷ (1107, "MPI_Rsend_init")
    ∷ (1108, "MPI_Scan")
    ∷ (1109, "MPI_Scatter")
    ∷ (1110, "MPI_Scatterv")
    ∷ (1111, "MPI_Send")
    ∷ (1112, "MPI_Send_init")
    ∷ (1113, "MPI_Sendrecv")
    ∷ (1114, "MPI_Sendrecv_replace")
    ∷ (1115, "MPI_Ssend")
    ∷ (1116, "MPI_Ssend_init")
    ∷ (1117, "MPI_Start")
    ∷ (1118, "MPI_Startall")
    ∷ (1119, "MPI_Test")
    ∷ (1120, "MPI_Test_cancelled")
    ∷ (1121, "MPI_Testall")
    ∷ (1122, "MPI_Testany")
    ∷ (1123, "MPI_Testsome")
    ∷ (1124, "MPI_Topo_test")
    ∷ (1125, "MPI_Type_commit")
    ∷ (1126, "MPI_Type_contiguous")
    ∷ (1127, "MPI_Type_count")
    ∷ (1128, "MPI_Type_create_darray")
    ∷ (1129, "MPI_Type_create_indexed_block")
    ∷ (1130, "MPI_Type_create_subarray")
    ∷ (1131, "MPI_Type_extent")
    ∷ (1132, "MPI_Type_free")
    ∷ (1133, "MPI_Type_get_contents")
    ∷ (1134, "MPI_Type_get_envelope")
    ∷ (1135, "MPI_Type_hindexed")
    ∷ (1136, "MPI_Type_hvector")
    ∷ (1137, "MPI_Type_indexed")
    ∷ (1138, "MPI_Type_lb")
    ∷ (1139, "MPI_Type_size")
    ∷ (1140, "MPI_Type_struct")
    ∷ (1141, "MPI_Type_ub")
    ∷ (1142, "MPI_Type_vector")
    ∷ (1143, "MPI_Unpack")
    ∷ (1144, "MPI_Wait")
    ∷ (1145, "MPI_Waitall")
    ∷ (1146, "MPI_Waitany")
    ∷ (1147, "MPI_Waitsome")
    ∷ (1148, "MPI_Win_complete")
    ∷ (1149, "MPI_Win_create")
    ∷ (1150, "MPI_Win_fence")
    ∷ (1151, "MPI_Win_free")
    ∷ (1152, "MPI_Win_get_group")
    ∷ (1153, "MPI_Win_lock")
    ∷ (1154, "MPI_Win_post")
    ∷ (1155, "MPI_Win_start")
    ∷ (1156, "MPI_Win_test")
    ∷ (1157, "MPI_Win_unlock")
    ∷ (1158, "MPI_Win_wait")
    ∷ (1159, "MPI_Wtick")
    ∷ (1160, "MPI_Wtime")
    ∷ []

abbrev pub get_elem? {ℓ} : {A : Type ℓ} → List A → ℕ → Option A
get_elem? [] i = none
get_elem? (x ∷ xs) zero = some x
get_elem? (x ∷ xs) (suc i) = get_elem? xs i

-- `mpiPi.lookup[op - mpiPi_BASE]`
unfoldable pub entry : ℕ → Option Lookup
entry op = get_elem? lookup_table (op - mpi_base)

abbrev bytes : Option Lookup → Text
bytes none = []
bytes (some (op, name)) = codes name

-- `mpiPi.lookup[op - mpiPi_BASE].name`
unfoldable pub op_name : ℕ → Text
unfolding entry
op_name op = bytes (entry op)
