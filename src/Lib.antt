-- ===== src/Lib.antt =====
-- A model of RcppDeepState, an R package that fuzzes the compiled functions
-- of other packages. For each exported function the package writes a test harness: a DeepState
-- test that draws an argument of each type by a generator of inst/include/RcppDeepState.h and
-- calls the function. The harness includes inst/include/DeepState.h and
-- inst/include/DeepState.hpp, whose inline and static functions are compiled into it, and links
-- the DeepState library. It is run by the driver DeepState_Run, on inputs that a fuzzer has saved
-- or that are there.
--
-- The parts, and where they are:
--   * Base: Boolean tests and lists over native numbers, C strings as lists of codes, signed
--     integers with the wrap-around of a C type, and computations over a state that can stop.
--   * Source: the calls that inst/include/RcppDeepState.h makes of DeepState, as a record of
--     operations with what they promise. The generators and the theorems about them have it as
--     a parameter, so that they rest on no code of DeepState.
--   * Rcpp: Rcpp's vectors and matrices as lists, with reads and writes that stop out of
--     bounds.
--   * Generator: RcppDeepState_int and its siblings (Scalars), RcppDeepState_NumericVector and
--     RcppDeepState_IntegerVector (Vectors), RcppDeepState_NumericMatrix,
--     RcppDeepState_IntegerMatrix and RcppDeepState_mat (Matrices),
--     RcppDeepState_CharacterVector and RcppDeepState_string (Texts), each with and without a
--     range where the header has both.
--   * DeepState: DEEPSTATE_MAKE_SYMBOLIC_RANGE of inst/include/DeepState.h at all its types
--     (Range); Pump, NoSwarmOneOf and DeepState_NoSwarmCStrUpToLen of
--     inst/include/DeepState.hpp (Choice). DeepState.Runtime is the record of the functions
--     that these headers only declare. DeepState.Supply makes a Source of them.
--   * Harness: the driver in inst/include/DeepState.h, from DeepState_IsTestCaseFile to
--     DeepState_Run: the files of saved test cases (Files), a run of one test with or without a
--     fork (RunTest), the runs over saved test cases (Saved) and the choice of what to run
--     (Main). Harness.Types has its data, and Host, the record of what the driver calls.
--   * TestSan: the functions of inst/testpkgs/testSAN/src, over a memory of heap blocks.
--   * Frontend: the R code. The datatypes that a harness can draw (Types), the text of a
--     harness (Harness) and what its INPUTS draws over the generators (Draw), in
--     R/fun_harness_create.R; the names of the tests, and what the driver of Harness makes of
--     those that the R code asks for (TestNames), in R/fun_harness_fuzz.R,
--     R/analyze_binary_one.R and R/analyze_binary.R; the files of a function's folder
--     (Folder), in R/fun_harness_create.R, R/fun_makefile_create.R, R/editable_fun.R and
--     R/fun_harness_compile.R; the harnesses of a package (Package), in
--     R/pkg_harness_create.R; running them (Fuzz), in R/fun_harness_fuzz.R and
--     R/pkg_harness_compile.R; the saved inputs that are analysed (Analyze), and the arguments
--     that their runs have saved (SavedInputs), in R/analyze_binary_one.R; fuzzing under
--     valgrind (FuzzAnalyze), in R/analyze_binary.R; the search for missing ranges and
--     assertions (Ranges), in R/editable_fun.R; get_package_name, and the functions and arguments in
--     RcppExports.cpp, in R/package_details.R (Description, PackageDetails and Exports); the
--     text of the makefiles (Makefile), in R/fun_makefile_create.R and R/fun_harness_create.R;
--     the table of valgrind's errors (ValgrindLog), in R/xml_log.R; the lists of paths of
--     R/files_names.R (FileNames); the workflow of R/ci_setup.R (Workflow). R's functions keep their
--     names without the prefix deepstate_.
--   * Tape: a Runtime and a Source that answer from a list of integers. Tests runs the model on
--     it.
--
-- These headers of DeepState carry the copyright of Trail of Bits and come from that project; the
-- library behind them is not in the repository. DeepState and Harness are kept apart from the
-- rest for this reason: Source, Rcpp, Generator and TestSan use neither, and of Frontend only
-- TestNames.Driver, on what the options of the R code make of the driver, uses Harness.
--
-- State. A computation of Base.Effects takes a state to a value with the next state, or to the
-- reason why it stopped: an assumption that cuts a path, DeepState_Abandon, a length that R
-- refuses, or undefined behaviour (a division by zero, an access out of bounds). The driver's
-- World has the input buffer, its index and the events seen from outside; an Outcome tells a
-- value from a jump to the last setjmp, an exit and a signal. What a test does is a function of
-- the buffer and the index. What a child process does to memory is lost, what it saves is not.
-- A folder of the R code is the list of the names in it, a package's folders are a function of the
-- names of its functions, and a call that stops gives `none`. How far `make` gets, what Sys.glob
-- lists, R's directories, what install.packages builds and a run of valgrind are parameters.
-- The byte that DeepState_MemScrub leaves, the files and the directories are fields of Host.
--
-- Bounds. All loops of the model recurse on what they go through (the elements to fill, the
-- rounds of Pump below its bound, the entries of a directory, the list of tests), so there is no
-- fuel. An int has 32 bits, a long 64, a char is signed; a signed overflow, undefined in C, is
-- given the wrapped value in Range and is a fault in TestSan. The input buffer has 8192 bytes,
-- the default of DEEPSTATE_SIZE.
--
-- Not modelled: of the R code R/make_run.R, which downloads and builds DeepState; the swarm overloads of OneOf, Symbolic,
-- the fixtures and the expanded comparisons of inst/include/DeepState.hpp; floating point
-- arithmetic, of which only the order that a range asks for is named; the writing of a drawn
-- value to the inputs directory by the harness; a fork() that fails, which the driver does not test
-- for, and a test that calls exit itself; logging and what FLAGS_verbose_reads prints;
-- the other headers (Option.h, Log.h, Stream.h, Stream.hpp, Compiler.h, Klee.h), which hold
-- declarations, macros and output; inst/testpkgs/testSAN/src/RcppExports.cpp, which Rcpp
-- generates.
pub mod Base
pub mod DeepState
pub mod Source
pub mod Rcpp
pub mod Generator
pub mod Harness
pub mod Frontend
pub mod TestSan
pub mod Tape
mod Tests
