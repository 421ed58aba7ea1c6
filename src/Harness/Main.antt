-- ===== src/Harness/Main.antt =====
-- The choice of what to run: DeepState_Run and DeepState_RunListTests of inst/include/DeepState.h.
pub mod Laws
pub mod Listing
use rcpp_deep_state.Base.{
  ℕ, suc, ◌+◌, Bool, true, false, not, ◌&&◌, ◌||◌, List, [], ◌∷◌, codes, has_substring,
  if◌then◌else◌,
}
use rcpp_deep_state.Harness.Types.{
  TestRunResult, TestInfo, Flags, Host, Outcome, done, jumped, Action, give, end_with, ◌>>=◌, ◌>>◌,
  emit, when, begin, begin_dr_fuzz, list_test, list_counts, wait_child, teardown,
}
use rcpp_deep_state.Harness.RunTest.{fork_and_run_test}
use rcpp_deep_state.Harness.Saved.{
  failed, run_saved_test_cases, run_single_saved_test_case, run_single_saved_test_dir,
}

abbrev pub is_boring : List ℕ → Bool
is_boring name = has_substring name (codes "Boring") || has_substring name (codes "BORING")

abbrev pub is_disabled : List ℕ → Bool
is_disabled name = has_substring name (codes "Disabled") || has_substring name (codes "DISABLED")

-- The loop of DeepState_RunListTests with its three counters; a boring test does not count as
-- disabled.
unfoldable pub list_loop : ℕ → ℕ → ℕ → List TestInfo → Action ℕ
list_loop boring disabled total [] = emit (list_counts boring disabled total) >> give 0
list_loop boring disabled total (test ∷ tests) =
    let name = test.test_name in
    emit (list_test name test.line_number)
    >> list_loop (if is_boring name then suc boring else boring)
        (if is_boring name then disabled else if is_disabled name then suc disabled else disabled)
        (suc total) tests

unfoldable pub run_list_tests : Host → Action ℕ
run_list_tests h = list_loop 0 0 0 h.tests

-- A run of the test on the input that is there: 1 if it does not pass.
unfoldable pub run_one : Host → TestInfo → Action ℕ
run_one h test =
    emit (begin test.test_name)
    >> (fork_and_run_test h.flags test >>= λ result. give (failed result))

-- The two `continue`s before the test is run.
abbrev pub is_skipped : Host → List ℕ → Bool
is_skipped h name =
    (h.flags.has_test_filter && not (h.fnmatch h.flags.test_filter name))
    || (not h.flags.has_run_disabled && is_disabled name)

-- Under Dr. Fuzz each test runs in a child, and the parent goes on; what is given here is what the
-- parent does.
unfoldable pub run_regular : Host → TestInfo → Action ℕ
run_regular h test =
    if is_skipped h test.test_name
    then give 0
    else if h.under_drfuzz
    then (emit (begin_dr_fuzz test.test_name) >> give 0)
    else run_one h test

-- The body of the loop. Under --boring_only a boring test is run, and what follows is not skipped.
unfoldable pub run_test_of : Host → TestInfo → Action ℕ
run_test_of h test =
    if h.flags.has_boring_only
    then (if is_boring test.test_name
        then (run_one h test >>= λ n. run_regular h test >>= λ m. give (n + m))
        else give 0)
    else run_regular h test

unfoldable pub run_tests : Host → List TestInfo → Action ℕ
run_tests h [] = give 0
run_tests h (test ∷ tests) = run_test_of h test >>= λ n. run_tests h tests >>= λ m. give (n + m)

-- The part of DeepState_Run from the loop on.
unfoldable pub run_own : Host → Action ℕ
run_own h = do
  n ← run_tests h h.tests
  _ ← when h.under_drfuzz (emit wait_child)
  _ ← emit teardown
  give n

unfoldable pub run : Host → Action ℕ
run h =
    if not h.options_are_initialized
    then end_with jumped
    else if h.flags.has_list_tests
    then run_list_tests h
    else if h.flags.has_input_test_file
    then run_single_saved_test_case h
    else if h.flags.has_input_test_dir
    then run_saved_test_cases h
    else if h.flags.has_input_test_files_dir
    then run_single_saved_test_dir h
    else if h.flags.fuzz
    then give h.fuzz
    else run_own h
