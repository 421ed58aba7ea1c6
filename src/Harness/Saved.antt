-- ===== src/Harness/Saved.antt =====
-- Runs over saved test cases: DeepState_RunSavedTestCase, DeepState_RunSavedCasesForTest,
-- DeepState_RunSavedTestCases, DeepState_RunSingleSavedTestCase and DeepState_RunSingleSavedTestDir
-- of inst/include/DeepState.h. Allocations succeed, and what is logged is left out.
pub mod Laws
pub mod Counts
pub mod Single
pub mod Selection
use rcpp_deep_state.Base.{
  ℕ, ◌+◌, Bool, true, false, ◌||◌, Option, none, some, List, [], ◌∷◌, ◌++◌, codes, str_eq, ◌==◌,
  if◌then◌else◌,
}
use rcpp_deep_state.Harness.Types.{
  TestRunResult, pass, fail, crash, abandon, TestInfo, Flags, Host, World, Outcome, done, jumped,
  exited, killed, Action, give, end_with, ◌>>=◌, ◌>>◌, emit, when, begin, save_crashing,
  mark_crashed, teardown,
}
use rcpp_deep_state.Harness.Files.{is_test_case_file, init_input_from_file}
use rcpp_deep_state.Harness.RunTest.{fork_and_run_test}

-- `"%s/%s"`, or the name alone where there is no directory.
abbrev pub join : List ℕ → List ℕ → List ℕ
join [] name = name
join (c ∷ dir) name = (c ∷ dir) ++ (b'/' ∷ name)

-- A crash is saved and recorded.
unfoldable pub report : Flags → TestRunResult → Action (Unit {0})
report f crash = when f.has_output_test_dir (emit save_crashing) >> emit mark_crashed
report f r = give tt

-- What follows once the input is there.
unfoldable pub run_loaded : Host → TestInfo → Action TestRunResult
run_loaded h test = do
  _ ← emit (begin test.test_name)
  result ← fork_and_run_test h.flags test
  _ ← report h.flags result
  give result

-- The branch of the first return of `setjmp`.
unfoldable pub attempt : Host → TestInfo → List ℕ → Action TestRunResult
attempt h test path = init_input_from_file h path >> run_loaded h test

-- A jump out of the first branch lands in the second.
abbrev pub or_crash : Outcome TestRunResult × World → Outcome TestRunResult × World
or_crash (jumped, w) = (done crash, w)
or_crash (o, w) = (o, w)

unfoldable pub run_saved_test_case : Host → TestInfo → List ℕ → List ℕ → Action TestRunResult
run_saved_test_case h test dir name w = or_crash (attempt h test (join dir name) w)

-- `basename` of a path that does not end in a slash: what follows the last one.
unfoldable pub basename_from : List ℕ → List ℕ → List ℕ
basename_from best [] = best
basename_from best (c ∷ s) = if c == b'/' then basename_from s s else basename_from best s

unfoldable pub basename : List ℕ → List ℕ
unfolding basename_from
basename s = basename_from s s

abbrev pub test_case_dir : Flags → TestInfo → List ℕ
test_case_dir f test =
    f.input_test_dir ++ (b'/' ∷ (basename test.file_name ++ (b'/' ∷ test.test_name)))

-- `result != DeepState_TestRunPass`.
abbrev pub failed : TestRunResult → ℕ
failed pass = 0
failed _ = 1

-- The loop over the directory.
unfoldable pub run_cases : Host → TestInfo → List ℕ → List (List ℕ) → Action ℕ
run_cases h test dir [] = give 0
run_cases h test dir (name ∷ names) =
    if is_test_case_file name
    then (run_saved_test_case h test dir name >>= λ result.
        run_cases h test dir names >>= λ n. give (failed result + n))
    else run_cases h test dir names

-- A test without a directory is skipped.
unfoldable pub run_dir : Host → TestInfo → List ℕ → Option (List (List ℕ)) → Action ℕ
run_dir h test dir none = give 0
run_dir h test dir (some names) = run_cases h test dir names

unfoldable pub run_saved_cases_for_test : Host → TestInfo → Action ℕ
run_saved_cases_for_test h test =
    let dir = test_case_dir h.flags test in run_dir h test dir (h.open_dir dir)

-- The loop over the tests.
unfoldable pub run_all : Host → List TestInfo → Action ℕ
run_all h [] = give 0
run_all h (test ∷ tests) = do n ← run_saved_cases_for_test h test; m ← run_all h tests; give (n + m)

unfoldable pub run_saved_test_cases : Host → Action ℕ
run_saved_test_cases h = do n ← run_all h h.tests; _ ← emit teardown; give n

-- The loop that looks for the test: the one that is named, or the first.
unfoldable pub select : Flags → List TestInfo → Option TestInfo
select f [] = none
select f (test ∷ tests) =
    if f.has_input_which_test
    then (if str_eq f.input_which_test test.test_name then some test else select f tests)
    else some test

-- `(result == DeepState_TestRunFail) || (result == DeepState_TestRunCrash)`, and what follows.
unfoldable pub tally : Flags → TestRunResult → Action ℕ
tally f pass = give 0
tally f abandon = give 0
tally f r =
    when f.abort_on_fail (end_with killed)
    >> (when f.exit_on_fail (end_with (exited 255)) >> give 1)

-- What follows the choice of the test; there may be none.
unfoldable pub run_selected : Host → Option TestInfo → Action ℕ
run_selected h none = give 0
run_selected h (some test) = do
  result ← run_saved_test_case h test [] h.flags.input_test_file
  n ← tally h.flags result
  _ ← emit teardown
  give n

unfoldable pub run_single_saved_test_case : Host → Action ℕ
run_single_saved_test_case h = run_selected h (select h.flags h.tests)

-- The loop over the directory, where any regular file is a test case; `stat` does not fail on an
-- entry.
unfoldable pub run_files : Host → TestInfo → List (List ℕ) → Action ℕ
run_files h test [] = give 0
run_files h test (name ∷ names) =
    if h.is_regular (h.flags.input_test_files_dir ++ (b'/' ∷ name))
    then (run_saved_test_case h test h.flags.input_test_files_dir name >>= λ result.
        tally h.flags result >>= λ k. run_files h test names >>= λ n. give (k + n))
    else run_files h test names

unfoldable pub run_selected_dir : Host → Option TestInfo → Option (List (List ℕ)) → Action ℕ
run_selected_dir h none names = give 0
run_selected_dir h (some test) none = give 0
run_selected_dir h (some test) (some names) = run_files h test names

unfoldable pub run_single_saved_test_dir : Host → Action ℕ
run_single_saved_test_dir h =
    run_selected_dir h (select h.flags h.tests) (h.open_dir h.flags.input_test_files_dir)
