-- ===== src/Harness/Saved/Single.antt =====
-- What a run of single files returns, with forks.
use rcpp_deep_state.Base.{
  ℕ, ◌+◌, ◌≡◌, refl, ap, ◌∙◌, ap₂, true, false, some, List, [], ◌∷◌, ◌++◌, if◌then◌else◌, arith,
}
use rcpp_deep_state.Harness.Types.{
  TestRunResult, pass, fail, crash, abandon, TestInfo, Flags, Host, World, done, exited, Gives,
  Gives-bind, Gives-if, bind_of_Gives, bind_of_exited,
}
use rcpp_deep_state.Harness.Saved.{
  run_saved_test_case, select, tally, run_selected, run_selected_dir, run_single_saved_test_case,
  run_files, run_single_saved_test_dir,
}
use rcpp_deep_state.Harness.Saved.Laws.{case_verdict, run_saved_test_case_gives}

-- What the number of failures is with one test case.
abbrev pub single : TestRunResult → ℕ
single pass = 0
single fail = 1
single crash = 1
single abandon = 0

tally-Gives :
    (f : Flags) (r : TestRunResult)
    → f.abort_on_fail ≡ false
    → f.exit_on_fail ≡ false
    → Gives (tally f r) (single r)
unfolding tally
tally-Gives f pass a x w = refl
tally-Gives f fail a x w = rw (a, x) refl
tally-Gives f crash a x w = rw (a, x) refl
tally-Gives f abandon a x w = refl

tally_exits :
    (f : Flags) (r : TestRunResult) (w : World)
    → f.abort_on_fail ≡ false
    → f.exit_on_fail ≡ true
    → single r ≡ 1
    → (tally f r w).0 ≡ exited 255
unfolding tally
tally_exits f pass w a x e = ground arith
tally_exits f fail w a x e = rw (a, x) refl
tally_exits f crash w a x e = rw (a, x) refl
tally_exits f abandon w a x e = ground arith

-- The regular files that do not pass or abandon the test.
abbrev pub file_failures : Host → TestInfo → List (List ℕ) → ℕ
file_failures h test [] = 0
file_failures h test (name ∷ names) =
    let dir = h.flags.input_test_files_dir in
    if h.is_regular (dir ++ (b'/' ∷ name))
    then single (case_verdict h test dir name) + file_failures h test names
    else file_failures h test names

module _ (h : Host) (test : TestInfo) (on : h.flags.fork ≡ true)
    (goes_on : h.flags.abort_on_fail ≡ false) where
  -- With forks, and neither --abort_on_fail nor --exit_on_fail, DeepState_RunSingleSavedTestCase
  -- returns 1 if the selected test fails or crashes on the file, and 0 if it passes or is
  -- abandoned.
  pub run_single_saved_test_case_gives :
      h.flags.exit_on_fail ≡ false
      → select h.flags h.tests ≡ some test
      → (w : World)
      → (run_single_saved_test_case h w).0
        ≡ done (single (case_verdict h test [] h.flags.input_test_file))
  unfolding run_single_saved_test_case run_selected
  run_single_saved_test_case_gives x chosen w =
      ap (λ o. (run_selected h o w).0) chosen
      ∙ Gives-bind (run_saved_test_case h test [] h.flags.input_test_file) _
          (run_saved_test_case_gives h test on [] h.flags.input_test_file)
          (Gives-bind (tally h.flags (case_verdict h test [] h.flags.input_test_file)) _
            (tally-Gives h.flags (case_verdict h test [] h.flags.input_test_file) goes_on x)
            (λ v. refl))
          w

  -- With forks, under --exit_on_fail and not under --abort_on_fail, a failure or crash of the
  -- selected test on the file ends DeepState_RunSingleSavedTestCase and the process with status
  -- 255.
  pub run_single_saved_test_case_exits :
      h.flags.exit_on_fail ≡ true
      → select h.flags h.tests ≡ some test
      → single (case_verdict h test [] h.flags.input_test_file) ≡ 1
      → (w : World) → (run_single_saved_test_case h w).0 ≡ exited 255
  unfolding run_single_saved_test_case run_selected
  run_single_saved_test_case_exits x chosen bad w =
      let run = run_saved_test_case h test [] h.flags.input_test_file in
      let r = case_verdict h test [] h.flags.input_test_file in
      ap (λ o. (run_selected h o w).0) chosen
      ∙ (bind_of_Gives run _ w (run_saved_test_case_gives h test on [] h.flags.input_test_file)
          ∙ bind_of_exited (tally h.flags r) _ (run w).1
              (tally_exits h.flags r (run w).1 goes_on x bad))

  run_files-Gives :
      h.flags.exit_on_fail ≡ false
      → (names : List (List ℕ)) → Gives (run_files h test names) (file_failures h test names)
  unfolding run_files
  run_files-Gives x [] = λ w. refl
  run_files-Gives x (name ∷ names) =
      let dir = h.flags.input_test_files_dir in
      Gives-if (h.is_regular (dir ++ (b'/' ∷ name))) _ _
        (Gives-bind (run_saved_test_case h test dir name) _
          (run_saved_test_case_gives h test on dir name)
          (Gives-bind (tally h.flags (case_verdict h test dir name)) _
            (tally-Gives h.flags (case_verdict h test dir name) goes_on x)
            (Gives-bind (run_files h test names) _ (run_files-Gives x names) (λ w. refl))))
        (run_files-Gives x names)

  -- With forks, and neither --abort_on_fail nor --exit_on_fail, DeepState_RunSingleSavedTestDir
  -- returns the number of regular files on which the selected test fails or crashes, if the
  -- directory can be opened.
  pub run_single_saved_test_dir_gives :
      {names : List (List ℕ)}
      → h.flags.exit_on_fail ≡ false
      → select h.flags h.tests ≡ some test
      → h.open_dir h.flags.input_test_files_dir ≡ some names
      → (w : World) → (run_single_saved_test_dir h w).0 ≡ done (file_failures h test names)
  unfolding run_single_saved_test_dir run_selected_dir
  run_single_saved_test_dir_gives {names} x chosen opened w =
      ap₂ (λ o d. (run_selected_dir h o d w).0) chosen opened ∙ run_files-Gives x names w
