-- ===== src/Tests/FileNames.antt =====
-- The results on the lists of paths at concrete input.
use rcpp_deep_state.Base.{◌≡◌, ◌≢◌, ◌↔◌, refl, false, [], ◌∷◌, codes, gsub, has_substring}
use rcpp_deep_state.Frontend.FileNames.{
  unique_names, listed_harness, listed_makefile, listed_log, listed_output, harness_files,
  harness_file, makefile_file, log_file, output_directory,
}
use rcpp_deep_state.Frontend.FileNames.Laws.{listed_differ}

listed_differ_example :
    (listed_harness (codes "/t") (codes "rcpp_f") ≢ harness_file (codes "/t") (codes "rcpp_f"))
    × (listed_makefile (codes "/t") (codes "rcpp_f") ≢ makefile_file (codes "/t") (codes "rcpp_f"))
    × (listed_output (codes "/t") (codes "rcpp_f") ≢ output_directory (codes "/t") (codes "rcpp_f"))
    × ((listed_log (codes "/t") (codes "rcpp_f") ≡ log_file (codes "/t") (codes "rcpp_f"))
        ↔ (has_substring (log_file (codes "/t") (codes "rcpp_f")) (codes "rcpp_") ≡ false))
listed_differ_example = listed_differ (codes "/t") (codes "rcpp_f")

two_arguments :
    harness_files (codes "/t") (codes "rcpp_f" ∷ codes "rcpp_f" ∷ [])
    ≡ codes "/t/f_DeepState_TestHarness.cpp" ∷ codes "/t/f.Makefile" ∷ []
unfolding harness_files unique_names listed_harness listed_makefile gsub
two_arguments = refl
