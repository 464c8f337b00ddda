-- ===== src/Lib.antt =====
-- mpiP: a profiler for MPI programs. A wrapper of every MPI call times the call and accounts for it in
-- a table of the task, keyed by operation, rank and call stack. At a report the tasks send their
-- records to a collector, which gives every call stack an id, groups the records by call site and
-- writes the report. `MPI_Pcontrol` turns profiling on and off, resets it and asks for reports.
--
-- Files, with the code that each is about:
--   Prelude: names, Boolean tests, lists and `int` for all other files.
--   Hash: mpiP-hash.c and mpiP-hash.h, the chained hash table. `h_open`, `h_insert`, `h_search`,
--     `h_delete`, `h_gather_data` and `h_count` are the functions of these names; `insert`, `lookup`,
--     `delete` and `gather` are what follows their checks. Its children: Chain (one bucket), Invariant,
--     Lookup, Gather, and Upsert, Rewrite and Grouped for the ways in which mpiPi.c and pcontrol.c
--     combine the calls.
--   Callsite: `callsite_stats_t` (mpiPi.h) and the hash functions and comparators of mpiPi.c. Keys shows
--     that they agree.
--   State: the global `mpiPi` (mpiPi.h) and its defaults (`mpiPi_init`).
--   Options: `mpiPi_getenv` and `GetBaseAppName` (util.c). Init: `mpiPi_init` (mpiPi.c).
--   Task: `mpiPi_update_callsite_stats` (mpiPi.c). Account is about one record, Refine about the table.
--   Pcontrol: pcontrol.c, and what `mpiPi_generateReport` does to the clock. Clock is about the time
--     that is reported, Reset about the table.
--   Wrappers: the generated `mpiPif_MPI_..` (wrappers.c). Nested is about calls that the library makes
--     within a call, Instances names each wrapper that finds a size or updates a histogram,
--     Communicators and Requests the others, Bounds is about the indices into the histograms, and Whole
--     about a run from the start.
--   Stack: `mpiPi_RecordTraceBack` on libunwind (record_stack.c). Walk is about what it stores.
--   Histogram: `get_histogram_bin`, `mpiPi_update_collective_stats` and `mpiPi_update_pt2pt_stats`
--     (mpiPi.c). Bins and Cells.
--   Sources: `mpiPi_query_pc` and `mpiPi_query_src` (mpiPi.c). Frames is about the
--     comparators, Ids about addresses, Assign and Unique about the ids.
--   Merge: `mpiPi_merge_individual_callsite_records`, `mpiPi_insert_callsite_records`,
--     `mpiPi_mergeResults` and `mpiPi_insert_MPI_records` (mpiPi.c). Sums (one record and the totals),
--     Groups and Ops (the tables), Gathered (all tasks), SiteData (times by task) and Sites (which
--     records become one).
--   Matrix: `mpiPi_mergeCollectiveStats` and `mpiPi_mergept2ptStats` (mpiPi.c). Cells is about
--     the sums.
--   Names: the table `mpiPi_lookup` (lookup.c). Own is about the numbers of the wrappers.
--   RangeMap: the red-black tree of address ranges, `AddrRangeMap_Add` and `AddrRangeMap_Find`
--     (pc_lookup_dwarf.c). Order is about the ranges from left to right, Descent and Fixup about the two
--     loops of the insertion, Balance about the whole, Find about the search.
--   Dwarf: `UniqueFileName_Get`, the maps of lines and functions, `open_dwarf_executable` and
--     `mpiP_find_src_loc` (pc_lookup_dwarf.c). Patch is about `AddrToSourceMap_PatchRanges`, Lines about
--     adding lines, Nearest about what is found, Depth about how deep the map gets.
--   Report: report.c. A section is the list of its lines. The sections: Tasks (`mpiPi_print_..task_info`
--     and `mpiPi_print_callsites`), Top (`mpiPi_print_top_.._sites`), TopCells (the histograms), Detail
--     (`mpiPi_print_all_callsite_.._info`), Concise (`mpiPi_print_concise_callsite_.._info`), Coll and
--     CollConcise (the `mpiPi_coll_print_..` of both). Print is `mpiPi_profile_print` and calls them.
--     What they are shown to write: Twenty for Top, Rows and Greatest below TopCells, TimeSites and
--     Sections below Detail on the lemmas of Site, SizeSites, SizeRanks and of Runs, Summaries
--     below Concise on the lemmas of Entries, Counts and Sites, Sites below Coll, AppTime below Tasks,
--     Complete below Print on those of Headings, Contents and Sections. Order is about `qsort` and the
--     comparators, Cov about `calc_COV`.
--   Tests: the theorems at concrete states, and runs.
--
-- How the parts interact: Wrappers takes a call stack from Stack and calls Task and Histogram. Task,
-- Sources and Merge are clients of Hash and owe it the laws `IsKey` of Hash/Chain; Callsite/Keys and
-- Sources/Frames prove them. Init opens the table that Task fills. Merge takes the gathered records of
-- the tasks, asks Sources for ids and fills its own tables. Report gathers these tables, sorts them and
-- finds the operations' names in Names; the collective report looks up each task's own table.
--
-- Representation. A `double` that holds a time in microseconds or a size in bytes is a natural
-- number, which is exact below 2 ^ 53; the clock's division by 1000000 is left out, so times stay in
-- microseconds. DBL_MAX and UINT_MAX are their exact values. `unsigned` hashes wrap at 2 ^ 32. Counters
-- of type `int` and `long long` do not wrap. Pointers are addresses and NULL is 0 or `none`. `assert`
-- of a sign holds by the type or gives `none`; the cookie that marks a record is a constant field and
-- its assertions are left out. A read of the clock, an outcome of `malloc` and a result of an MPI call
-- are arguments. `mpiP_find_src_loc` is a function that is a parameter of Sources;
-- the one of Dwarf is an instance. A place in the tree is a subtree with the frames of its parents, so
-- that the parent pointers need no store.
-- `qsort`, as a function that gives a sorted reordering, and the reductions of MPI are parameters too.
-- In a line of the report a quotient of two `double`s is kept as the two numbers, and the root of one
-- likewise; where the code divides by 0 the second number is 0. An `int` that has no value is a
-- constructor of its own. Loops over an array take the rounds that are left as their first argument, so no fuel is chosen.
--
-- Not modelled: the walks of the stack other than by libunwind, the source lookup by the BFD library, the characters of the report's lines and
-- its header with the settings, messages, the Fortran bindings, the connection to the visualizer, and
-- what is only freed (`h_close`, `mpiPi_finalize`).
pub mod Prelude
pub mod Hash
pub mod Callsite
pub mod State
pub mod Task
pub mod Pcontrol
pub mod Histogram
pub mod Options
pub mod Init
pub mod Sources
pub mod Merge
pub mod Wrappers
pub mod Stack
pub mod Names
pub mod RangeMap
pub mod Dwarf
pub mod Report
pub mod Matrix
mod Tests
