-- ===== src/Harness/Saved/Counts.antt =====
-- The numbers of failures that the runs over saved test cases return, with forks.
use rcpp_deep_state.Base.{
  ℕ, ◌+◌, ◌≡◌, refl, ap, sym, ◌∙◌, ◌↔◌, Bool, true, false, Option, none, some, List, [], ◌∷◌, All,
  inl, inr, ◌⊎◌, if_of_false, if◌then◌else◌, arith,
}
use rcpp_deep_state.Harness.Types.{
  TestRunResult, pass, fail, crash, abandon, TestInfo, Host, World, done, Gives, Gives-bind,
  Gives-if,
}
use rcpp_deep_state.Harness.Files.{is_test_case_file}
use rcpp_deep_state.Harness.Saved.{
  run_saved_test_case, test_case_dir, failed, run_cases, run_dir, run_saved_cases_for_test, run_all,
  run_saved_test_cases,
}
use rcpp_deep_state.Harness.Saved.Laws.{case_verdict, run_saved_test_case_gives}

-- The test cases among the files of a directory that do not pass.
abbrev pub failures : Host → TestInfo → List ℕ → List (List ℕ) → ℕ
failures h test dir [] = 0
failures h test dir (name ∷ names) =
    if is_test_case_file name
    then failed (case_verdict h test dir name) + failures h test dir names
    else failures h test dir names

-- The names in a directory that may not be there.
abbrev pub or_empty : Option (List (List ℕ)) → List (List ℕ)
or_empty none = []
or_empty (some names) = names

abbrev pub all_failures : Host → List TestInfo → ℕ
all_failures h [] = 0
all_failures h (test ∷ tests) =
    let dir = test_case_dir h.flags test in
    failures h test dir (or_empty (h.open_dir dir)) + all_failures h tests

done_injective : (n m : ℕ) → done n ≡ done m → n ≡ m
done_injective n m e = cc

module _ (h : Host) (on : h.flags.fork ≡ true) where
  run_cases-Gives :
      (test : TestInfo) (dir : List ℕ) (names : List (List ℕ))
      → Gives (run_cases h test dir names) (failures h test dir names)
  unfolding run_cases
  run_cases-Gives test dir [] = λ w. refl
  run_cases-Gives test dir (name ∷ names) =
      Gives-if (is_test_case_file name) _ _
        (Gives-bind (run_saved_test_case h test dir name) _
          (run_saved_test_case_gives h test on dir name)
          (Gives-bind (run_cases h test dir names) _ (run_cases-Gives test dir names) (λ w. refl)))
        (run_cases-Gives test dir names)

  run_dir-Gives :
      (test : TestInfo) (dir : List ℕ) (o : Option (List (List ℕ)))
      → Gives (run_dir h test dir o) (failures h test dir (or_empty o))
  unfolding run_dir
  run_dir-Gives test dir none = λ w. refl
  run_dir-Gives test dir (some names) = run_cases-Gives test dir names

  for_test-Gives :
      (test : TestInfo)
      → Gives (run_saved_cases_for_test h test) (
          failures h test
            (test_case_dir h.flags test)
            (or_empty (h.open_dir (test_case_dir h.flags test))))
  unfolding run_saved_cases_for_test
  for_test-Gives test =
      run_dir-Gives test (test_case_dir h.flags test) (h.open_dir (test_case_dir h.flags test))

  run_all-Gives : (tests : List TestInfo) → Gives (run_all h tests) (all_failures h tests)
  unfolding run_all
  run_all-Gives [] = λ w. refl
  run_all-Gives (test ∷ tests) =
      Gives-bind (run_saved_cases_for_test h test) _ (for_test-Gives test)
        (Gives-bind (run_all h tests) _ (run_all-Gives tests) (λ w. refl))

  -- With forks, DeepState_RunSavedTestCases always returns: the number of saved test cases, over
  -- the directories of all tests, that do not pass.
  pub run_saved_test_cases_gives :
      (w : World) → (run_saved_test_cases h w).0 ≡ done (all_failures h h.tests)
  unfolding run_saved_test_cases
  run_saved_test_cases_gives = Gives-bind (run_all h h.tests) _ (run_all-Gives h.tests) (λ w. refl)

failed_zero : (r : TestRunResult) → failed r ≡ 0 → r ≡ pass
failed_zero pass e = refl
failed_zero fail e = ground arith
failed_zero crash e = ground arith
failed_zero abandon e = ground arith

-- A file that is no test case, or passes.
abbrev pub PassesIn : Host → TestInfo → List ℕ → List ℕ → Type 0
PassesIn h test dir name = (is_test_case_file name ≡ false) ⊎ (case_verdict h test dir name ≡ pass)

sum_zero : {n m : ℕ} → n ≡ 0 → m ≡ 0 → n + m ≡ 0
sum_zero p q = omega arith

if_zero :
    (b : Bool) (r : TestRunResult) (m : ℕ)
    → (if b then failed r + m else m) ≡ 0
    → ((b ≡ false) ⊎ (r ≡ pass)) × (m ≡ 0)
if_zero true r m e = (inr (failed_zero r (omega arith)), omega arith)
if_zero false r m e = (inl refl, e)

zero_if :
    (b : Bool) (r : TestRunResult) (m : ℕ)
    → (b ≡ false) ⊎ (r ≡ pass)
    → m ≡ 0
    → (if b then failed r + m else m) ≡ 0
zero_if b r m (inl p) q = if_of_false b (failed r + m) m p ∙ q
zero_if true r m (inr p) q = sum_zero (ap failed p) q
zero_if false r m (inr p) q = q

module _ (h : Host) (test : TestInfo) (dir : List ℕ) where
  failures_zero :
      (names : List (List ℕ)) → failures h test dir names ≡ 0 → All (PassesIn h test dir) names
  failures_zero [] e = tt
  failures_zero (name ∷ names) e =
      let (first, rest) =
        if_zero (is_test_case_file name) (case_verdict h test dir name) (failures h test dir names)
          e in
      (first, failures_zero names rest)

  no_failures :
      (names : List (List ℕ)) → All (PassesIn h test dir) names → failures h test dir names ≡ 0
  no_failures [] p = refl
  no_failures (name ∷ names) p =
      zero_if (is_test_case_file name) (case_verdict h test dir name) (failures h test dir names)
        p.0 (no_failures names p.1)

-- Every saved test case of the test passes.
abbrev pub PassesAll : Host → TestInfo → Type 0
PassesAll h test =
    let dir = test_case_dir h.flags test in All (PassesIn h test dir) (or_empty (h.open_dir dir))

all_failures_zero :
    (h : Host) (tests : List TestInfo) → all_failures h tests ≡ 0 → All (PassesAll h) tests
all_failures_zero h [] e = tt
all_failures_zero h (test ∷ tests) e =
    let dir = test_case_dir h.flags test in
    (
      failures_zero h test dir (or_empty (h.open_dir dir)) (omega arith),
      all_failures_zero h tests (omega arith),
    )

no_all_failures :
    (h : Host) (tests : List TestInfo) → All (PassesAll h) tests → all_failures h tests ≡ 0
no_all_failures h [] p = refl
no_all_failures h (test ∷ tests) p =
    let dir = test_case_dir h.flags test in
    sum_zero (no_failures h test dir (or_empty (h.open_dir dir)) p.0) (no_all_failures h tests p.1)

-- With forks, DeepState_RunSavedTestCases returns 0 exactly if every saved test case of every
-- test passes.
pub run_saved_test_cases_zero_iff :
    (h : Host) (w : World)
    → h.flags.fork ≡ true
    → ((run_saved_test_cases h w).0 ≡ done 0) ↔ All (PassesAll h) h.tests
run_saved_test_cases_zero_iff h w on = (
  λ e.
      all_failures_zero h h.tests
        (done_injective _ _ (sym (run_saved_test_cases_gives h on w) ∙ e)),
  λ p. run_saved_test_cases_gives h on w ∙ ap done (no_all_failures h h.tests p),
)
