-- ===== src/Frontend/TestNames/Driver.antt =====
-- What the driver of a harness does for deepstate_analyze_file (R/analyze_binary_one.R), which passes
-- --input_test_file and --input_which_test.
use rcpp_deep_state.Base.{
  ℕ, ◌≡◌, ◌≢◌, ap, ap₂, sym, ◌∙◌, Bool, true, false, not, none, some, [], ◌∷◌, ◌++◌, contains,
  codes, str_eq, str_eq_refl, str_eq_of_ne, ends_ne, if◌then◌else◌, if_of_true, if_of_false, arith,
}
use rcpp_deep_state.Frontend.Types.{Text}
use rcpp_deep_state.Frontend.Harness.{unittest}
use rcpp_deep_state.Frontend.TestNames.{generator_test, runner_test, analyzed_test}
use rcpp_deep_state.Frontend.TestNames.Laws.{analyzed_test_iff}
use rcpp_deep_state.Harness.Types.{TestInfo, Flags, Host, World, Action, done}
use rcpp_deep_state.Harness.Saved.{select, run_selected, run_single_saved_test_case}
use rcpp_deep_state.Harness.Saved.Laws.{case_verdict}
use rcpp_deep_state.Harness.Saved.Single.{single, run_single_saved_test_case_gives}
use rcpp_deep_state.Harness.Main.{run}

-- The options that deepstate_analyze_file gives.
abbrev pub IsAnalysis : Text → Host → Type 0
IsAnalysis packagename h =
    (h.options_are_initialized ≡ true)
    × (h.flags.has_list_tests ≡ false)
    × (h.flags.has_input_test_file ≡ true)
    × (h.flags.has_input_which_test ≡ true)
    × (h.flags.input_which_test ≡ analyzed_test packagename)

-- The tests of the harness of the package.
abbrev pub AreTests : Text → Host → TestInfo → TestInfo → Type 0
AreTests packagename h g r =
    (h.tests ≡ g ∷ r ∷ [])
    × (g.test_name ≡ generator_test packagename)
    × (r.test_name ≡ runner_test packagename)

-- The two suffixes differ in the last letter but one.
different : (p u : Text) → p ++ codes "_runner" ≢ u ++ codes "_generator"
different p u =
    ends_ne 1 p (codes "_runner") u (codes "_generator") (λ (q : ◌≡◌ {A = ℕ} 101 111). omega arith)

-- `select` with a name to look for, on the two tests.
select_of_two :
    (f : Flags) (g r : TestInfo)
    → f.has_input_which_test ≡ true
    → str_eq f.input_which_test g.test_name ≡ false
    → select f (g ∷ r ∷ []) ≡ (if str_eq f.input_which_test r.test_name then some r else none)
unfolding select
select_of_two f g r named other =
    if_of_true f.has_input_which_test _ (some g) named
    ∙ (if_of_false (str_eq f.input_which_test g.test_name) (some g) _ other
        ∙ if_of_true f.has_input_which_test _ (some r) named)

not_both : {b : Bool} → b ≡ true → b ≡ false → ⊥
not_both p q = ground arith

module _ (packagename : Text) (h : Host) (g r : TestInfo) (asked : IsAnalysis packagename h)
    (tests : AreTests packagename h g r) where
  select_two :
      select h.flags h.tests
      ≡ (if str_eq h.flags.input_which_test r.test_name then some r else none)
  select_two =
      ap (select h.flags) tests.0
      ∙ select_of_two h.flags g r asked.3 (
          str_eq_of_ne h.flags.input_which_test g.test_name
            (λ e. different packagename (unittest packagename) (sym asked.4 ∙ (e ∙ tests.1))))

  run_single : (w : World) → run h w ≡ run_single_saved_test_case h w
  unfolding run
  run_single w =
      ap (λ (m : Action ℕ). m w)
        (if_of_false (not h.options_are_initialized) _ _ (ap not asked.0)
          ∙ (if_of_false h.flags.has_list_tests _ _ asked.1
              ∙ if_of_true h.flags.has_input_test_file _ _ asked.2))

  -- In the harness of a package whose name has a dot, with the options of deepstate_analyze_file,
  -- DeepState_Run runs no test and returns 0.
  pub analysis_skips : (w : World) → contains packagename b'.' ≡ true → run h w ≡ (done 0, w)
  unfolding run_single_saved_test_case run_selected
  analysis_skips w dot =
      run_single w
      ∙ ap (λ o. run_selected h o w)
          (select_two
            ∙ if_of_false (str_eq h.flags.input_which_test r.test_name) (some r) none (
                str_eq_of_ne h.flags.input_which_test r.test_name (λ e.
                  not_both dot ((analyzed_test_iff packagename).0 (sym asked.4 ∙ (e ∙ tests.2))))))

  selected : contains packagename b'.' ≡ false → select h.flags h.tests ≡ some r
  selected plain =
      select_two
      ∙ if_of_true (str_eq h.flags.input_which_test r.test_name) (some r) none (
          ap₂ str_eq (asked.4 ∙ (analyzed_test_iff packagename).1 plain) tests.2
          ∙ str_eq_refl (runner_test packagename))

  -- In the harness of a package whose name has no dot, with the options of
  -- deepstate_analyze_file, with forks and neither abort_on_fail nor --exit_on_fail,
  -- DeepState_Run returns the verdict of the runner test on the file.
  pub analysis_runs :
      (w : World)
      → contains packagename b'.' ≡ false
      → h.flags.fork ≡ true
      → h.flags.abort_on_fail ≡ false
      → h.flags.exit_on_fail ≡ false
      → (run h w).0 ≡ done (single (case_verdict h r [] h.flags.input_test_file))
  analysis_runs w plain on a x =
      ap (λ p. p.0) (run_single w) ∙ run_single_saved_test_case_gives h r on a x (selected plain) w
