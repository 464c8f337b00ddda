-- ===== src/Wrappers/Communicators.antt =====
-- wrappers.c: the wrappers of calls on communicators, groups, topologies, attributes and types. None
-- finds a size or updates a histogram.
use mpi_pv.Wrappers.{Details}
use mpi_pv.Wrappers.Instances.{Arguments, plain_call}

unfoldable pub mpi_attr_delete : Arguments → Details
mpi_attr_delete a = plain_call 1008 a

unfoldable pub mpi_attr_get : Arguments → Details
mpi_attr_get a = plain_call 1009 a

unfoldable pub mpi_attr_put : Arguments → Details
mpi_attr_put a = plain_call 1010 a

unfoldable pub mpi_cart_coords : Arguments → Details
mpi_cart_coords a = plain_call 1018 a

unfoldable pub mpi_cart_create : Arguments → Details
mpi_cart_create a = plain_call 1019 a

unfoldable pub mpi_cart_get : Arguments → Details
mpi_cart_get a = plain_call 1020 a

unfoldable pub mpi_cart_map : Arguments → Details
mpi_cart_map a = plain_call 1021 a

unfoldable pub mpi_cart_rank : Arguments → Details
mpi_cart_rank a = plain_call 1022 a

unfoldable pub mpi_cart_shift : Arguments → Details
mpi_cart_shift a = plain_call 1023 a

unfoldable pub mpi_cart_sub : Arguments → Details
mpi_cart_sub a = plain_call 1024 a

unfoldable pub mpi_cartdim_get : Arguments → Details
mpi_cartdim_get a = plain_call 1025 a

unfoldable pub mpi_comm_create : Arguments → Details
mpi_comm_create a = plain_call 1027 a

unfoldable pub mpi_comm_dup : Arguments → Details
mpi_comm_dup a = plain_call 1028 a

unfoldable pub mpi_comm_free : Arguments → Details
mpi_comm_free a = plain_call 1029 a

unfoldable pub mpi_comm_group : Arguments → Details
mpi_comm_group a = plain_call 1030 a

unfoldable pub mpi_comm_remote_group : Arguments → Details
mpi_comm_remote_group a = plain_call 1032 a

unfoldable pub mpi_comm_remote_size : Arguments → Details
mpi_comm_remote_size a = plain_call 1033 a

unfoldable pub mpi_comm_split : Arguments → Details
mpi_comm_split a = plain_call 1035 a

unfoldable pub mpi_comm_test_inter : Arguments → Details
mpi_comm_test_inter a = plain_call 1036 a

unfoldable pub mpi_dims_create : Arguments → Details
mpi_dims_create a = plain_call 1037 a

unfoldable pub mpi_error_class : Arguments → Details
mpi_error_class a = plain_call 1042 a

unfoldable pub mpi_graph_create : Arguments → Details
mpi_graph_create a = plain_call 1064 a

unfoldable pub mpi_graph_get : Arguments → Details
mpi_graph_get a = plain_call 1065 a

unfoldable pub mpi_graph_map : Arguments → Details
mpi_graph_map a = plain_call 1066 a

unfoldable pub mpi_graph_neighbors : Arguments → Details
mpi_graph_neighbors a = plain_call 1067 a

unfoldable pub mpi_graph_neighbors_count : Arguments → Details
mpi_graph_neighbors_count a = plain_call 1068 a

unfoldable pub mpi_graphdims_get : Arguments → Details
mpi_graphdims_get a = plain_call 1069 a

unfoldable pub mpi_group_compare : Arguments → Details
mpi_group_compare a = plain_call 1070 a

unfoldable pub mpi_group_difference : Arguments → Details
mpi_group_difference a = plain_call 1071 a

unfoldable pub mpi_group_excl : Arguments → Details
mpi_group_excl a = plain_call 1072 a

unfoldable pub mpi_group_free : Arguments → Details
mpi_group_free a = plain_call 1073 a

unfoldable pub mpi_group_incl : Arguments → Details
mpi_group_incl a = plain_call 1074 a

unfoldable pub mpi_group_intersection : Arguments → Details
mpi_group_intersection a = plain_call 1075 a

unfoldable pub mpi_group_translate_ranks : Arguments → Details
mpi_group_translate_ranks a = plain_call 1080 a

unfoldable pub mpi_group_union : Arguments → Details
mpi_group_union a = plain_call 1081 a

unfoldable pub mpi_intercomm_create : Arguments → Details
mpi_intercomm_create a = plain_call 1086 a

unfoldable pub mpi_intercomm_merge : Arguments → Details
mpi_intercomm_merge a = plain_call 1087 a

unfoldable pub mpi_keyval_create : Arguments → Details
mpi_keyval_create a = plain_call 1093 a

unfoldable pub mpi_keyval_free : Arguments → Details
mpi_keyval_free a = plain_call 1094 a

unfoldable pub mpi_topo_test : Arguments → Details
mpi_topo_test a = plain_call 1124 a

unfoldable pub mpi_type_commit : Arguments → Details
mpi_type_commit a = plain_call 1125 a

unfoldable pub mpi_type_free : Arguments → Details
mpi_type_free a = plain_call 1132 a

unfoldable pub mpi_type_get_contents : Arguments → Details
mpi_type_get_contents a = plain_call 1133 a

unfoldable pub mpi_type_get_envelope : Arguments → Details
mpi_type_get_envelope a = plain_call 1134 a
