-- ===== src/Wrappers/Requests.antt =====
-- wrappers.c: the wrappers of calls on requests, files, buffers and windows that find no size and
-- update no histogram.
use mpi_pv.Wrappers.{Details}
use mpi_pv.Wrappers.Instances.{Arguments, plain_call}

unfoldable pub mpi_bsend_init : Arguments → Details
mpi_bsend_init a = plain_call 1014 a

unfoldable pub mpi_buffer_attach : Arguments → Details
mpi_buffer_attach a = plain_call 1015 a

unfoldable pub mpi_buffer_detach : Arguments → Details
mpi_buffer_detach a = plain_call 1016 a

unfoldable pub mpi_cancel : Arguments → Details
mpi_cancel a = plain_call 1017 a

unfoldable pub mpi_file_close : Arguments → Details
mpi_file_close a = plain_call 1044 a

unfoldable pub mpi_file_open : Arguments → Details
mpi_file_open a = plain_call 1045 a

unfoldable pub mpi_file_preallocate : Arguments → Details
mpi_file_preallocate a = plain_call 1046 a

unfoldable pub mpi_file_seek : Arguments → Details
mpi_file_seek a = plain_call 1050 a

unfoldable pub mpi_file_set_view : Arguments → Details
mpi_file_set_view a = plain_call 1051 a

unfoldable pub mpi_iprobe : Arguments → Details
mpi_iprobe a = plain_call 1088 a

unfoldable pub mpi_irecv : Arguments → Details
mpi_irecv a = plain_call 1089 a

unfoldable pub mpi_pack : Arguments → Details
mpi_pack a = plain_call 1097 a

unfoldable pub mpi_probe : Arguments → Details
mpi_probe a = plain_call 1099 a

unfoldable pub mpi_recv : Arguments → Details
mpi_recv a = plain_call 1101 a

unfoldable pub mpi_recv_init : Arguments → Details
mpi_recv_init a = plain_call 1102 a

unfoldable pub mpi_request_free : Arguments → Details
mpi_request_free a = plain_call 1105 a

unfoldable pub mpi_rsend_init : Arguments → Details
mpi_rsend_init a = plain_call 1107 a

unfoldable pub mpi_send_init : Arguments → Details
mpi_send_init a = plain_call 1112 a

unfoldable pub mpi_ssend_init : Arguments → Details
mpi_ssend_init a = plain_call 1116 a

unfoldable pub mpi_start : Arguments → Details
mpi_start a = plain_call 1117 a

unfoldable pub mpi_startall : Arguments → Details
mpi_startall a = plain_call 1118 a

unfoldable pub mpi_test : Arguments → Details
mpi_test a = plain_call 1119 a

unfoldable pub mpi_testall : Arguments → Details
mpi_testall a = plain_call 1121 a

unfoldable pub mpi_testany : Arguments → Details
mpi_testany a = plain_call 1122 a

unfoldable pub mpi_testsome : Arguments → Details
mpi_testsome a = plain_call 1123 a

unfoldable pub mpi_unpack : Arguments → Details
mpi_unpack a = plain_call 1143 a

unfoldable pub mpi_wait : Arguments → Details
mpi_wait a = plain_call 1144 a

unfoldable pub mpi_waitall : Arguments → Details
mpi_waitall a = plain_call 1145 a

unfoldable pub mpi_waitany : Arguments → Details
mpi_waitany a = plain_call 1146 a

unfoldable pub mpi_waitsome : Arguments → Details
mpi_waitsome a = plain_call 1147 a

unfoldable pub mpi_win_complete : Arguments → Details
mpi_win_complete a = plain_call 1148 a

unfoldable pub mpi_win_create : Arguments → Details
mpi_win_create a = plain_call 1149 a

unfoldable pub mpi_win_fence : Arguments → Details
mpi_win_fence a = plain_call 1150 a

unfoldable pub mpi_win_free : Arguments → Details
mpi_win_free a = plain_call 1151 a

unfoldable pub mpi_win_get_group : Arguments → Details
mpi_win_get_group a = plain_call 1152 a

unfoldable pub mpi_win_lock : Arguments → Details
mpi_win_lock a = plain_call 1153 a

unfoldable pub mpi_win_post : Arguments → Details
mpi_win_post a = plain_call 1154 a

unfoldable pub mpi_win_start : Arguments → Details
mpi_win_start a = plain_call 1155 a

unfoldable pub mpi_win_test : Arguments → Details
mpi_win_test a = plain_call 1156 a

unfoldable pub mpi_win_unlock : Arguments → Details
mpi_win_unlock a = plain_call 1157 a

unfoldable pub mpi_win_wait : Arguments → Details
mpi_win_wait a = plain_call 1158 a
