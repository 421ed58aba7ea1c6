-- ===== src/Frontend/TestNames/Laws.antt =====
-- Whether the driver finds the tests that the R code asks for.
use mathlib.Core.List.{append_cancel_right}
use rcpp_deep_state.Base.{◌≡◌, ap, sym, ◌↔◌, false, ◌++◌, contains, codes}
use rcpp_deep_state.Frontend.Types.{Text}
use rcpp_deep_state.Frontend.Harness.{unittest}
use rcpp_deep_state.Frontend.Harness.Laws.{unittest_iff}
use rcpp_deep_state.Frontend.TestNames.{generator_test, runner_test, fuzzed_test, analyzed_test}

pub analyzed_test_iff :
    (packagename : Text)
    → (analyzed_test packagename ≡ runner_test packagename) ↔ (contains packagename b'.' ≡ false)
analyzed_test_iff packagename =
    let iff = unittest_iff packagename in
    (
      λ e. iff.0 (sym (append_cancel_right packagename (unittest packagename) (codes "_runner") e)),
      λ h. ap (λ p. p ++ codes "_runner") (sym (iff.1 h)),
    )

-- The test that deepstate_fuzz_fun asks for is the generator test of the harness exactly if the
-- name of the package has no dot.
pub fuzzed_test_iff :
    (packagename : Text)
    → (fuzzed_test packagename ≡ generator_test packagename) ↔ (contains packagename b'.' ≡ false)
fuzzed_test_iff packagename =
    let iff = unittest_iff packagename in
    (
      λ e.
          iff.0
            (sym (append_cancel_right packagename (unittest packagename) (codes "_generator") e)),
      λ h. ap (λ p. p ++ codes "_generator") (sym (iff.1 h)),
    )
