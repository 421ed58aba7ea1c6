-- ===== src/Tests/Saved.antt =====
-- The driver on a small host: saved test cases, and the whole.
use rcpp_deep_state.Base.{◌≡◌, refl, ◌↔◌, true, [], ◌∷◌, codes, All, str_eq}
use rcpp_deep_state.Harness.Types.{crash, Flags, Host, done}
use rcpp_deep_state.Harness.Files.{to_read}
use rcpp_deep_state.Harness.Saved.{run_saved_test_case, run_saved_test_cases}
use rcpp_deep_state.Harness.Saved.Laws.{run_saved_test_case_gives}
use rcpp_deep_state.Harness.Saved.Counts.{PassesAll, run_saved_test_cases_zero_iff}
use rcpp_deep_state.Harness.Main.{run}
use rcpp_deep_state.Harness.Main.Laws.{run_gives}
use rcpp_deep_state.Tests.Sample.{no_flags, sum_test, other_test, host, world}

run_saved_test_case_gives_example :
    (run_saved_test_case (host no_flags) sum_test (codes "corpus") (codes "a") world).0 ≡ done crash
unfolding to_read
run_saved_test_case_gives_example =
    run_saved_test_case_gives (host no_flags) sum_test refl (codes "corpus") (codes "a") world

run_saved_test_cases_zero_iff_example :
    ((run_saved_test_cases (host no_flags) world).0 ≡ done 0)
    ↔ All (PassesAll (host no_flags)) (other_test ∷ sum_test ∷ [])
run_saved_test_cases_zero_iff_example = run_saved_test_cases_zero_iff (host no_flags) world refl

abbrev exiting : Flags
exiting = record no_flags { exit_on_fail = true }

abbrev only_boring : Flags
only_boring = record no_flags { has_boring_only = true }

-- The filter takes the other test only.
abbrev filtered : Host
filtered =
    record (host (record only_boring { has_test_filter = true; test_filter = codes "other" })) {
      fnmatch = λ p s. str_eq p s;
    }

-- The failing test is filtered out, but runs once as a boring one.
run_gives_example : (run filtered world).0 ≡ done 1
run_gives_example = run_gives filtered world refl refl refl

-- Without the filter it runs twice.
boring_twice : (run (host only_boring) world).0 ≡ done 2
boring_twice = run_gives (host only_boring) world refl refl refl
