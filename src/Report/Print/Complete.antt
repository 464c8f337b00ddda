-- ===== src/Report/Print/Complete.antt =====
-- report.c: the verbose report is written to its end, with its sections in their order.
use mpi_pv.Report.{Report}
