-- ===== src/Tests/Frontend.antt =====
-- The results on the harness of a package at concrete input.
use rcpp_deep_state.Base.{
  Bool, ◌||◌, ℕ, pos, arith, none, ◌≡◌, refl, ◌↔◌, true, false, some, List, [], ◌∷◌, codes, map,
  All, Meets,
}
use rcpp_deep_state.Tape.{source}
use rcpp_deep_state.Harness.Types.{Flags, Host, TestInfo, done}
use rcpp_deep_state.Harness.Files.{to_read}
use rcpp_deep_state.Harness.Main.{run}
use rcpp_deep_state.Generator.Vectors.Empty.{FaultsIfEmpty}
use rcpp_deep_state.Frontend.Types.{
  Text, Argument, rtype_of, args_of, find_row, type_arg, is_allowed, unsupported_datatypes,
}
use rcpp_deep_state.Frontend.Harness.{
  Function, infun, generation, checks, unittest, harness, arg_name, variable, range_comment,
  print_value, collect, strip_end,
}
use rcpp_deep_state.Frontend.Harness.Spelled.{Declared, rcpp, declared}
use rcpp_deep_state.Frontend.Draw.{Kind, draw_all, kinds}
use rcpp_deep_state.Frontend.Draw.Laws.{HaveTypes, supported-draw_all}
use rcpp_deep_state.Frontend.TestNames.{
  generator_test, runner_test, analyzed_test, is_separator, is_newline, split_by, read_lines,
  is_runner_line, harness_name_of,
}
use rcpp_deep_state.Frontend.TestNames.Written.{
  before_runner, generator_part, harness_name_of-harness,
}
use rcpp_deep_state.Frontend.TestNames.Driver.{analysis_skips, analysis_runs}
use rcpp_deep_state.Frontend.Folder.{Folder, links}
use rcpp_deep_state.Frontend.Analyze.{Run, fuzzing_crash}
use rcpp_deep_state.Frontend.FuzzAnalyze.{Options, fuzz_fun_analyze}
use rcpp_deep_state.Frontend.FuzzAnalyze.Laws.{asked_options, fuzz_fun_analyze_lem}
use rcpp_deep_state.Frontend.Ranges.{missing_ranges}
use rcpp_deep_state.Frontend.Ranges.Given.{IsMissing, WarnsOf}
use rcpp_deep_state.Frontend.Ranges.Fresh.{missing_ranges-harness}
use rcpp_deep_state.Tests.Sample.{no_flags, sum_test, other_test, host, world}

abbrev pub argument : Text → Text → Argument
argument t n = record { argument_type = t; argument_name = n }

abbrev pub rows : List Argument
rows =
    argument (codes "Rcpp::NumericMatrix") (codes "m")
    ∷ argument (codes "const int") (codes "n")
    ∷ []

abbrev pub function : Function
function = record {
  fun_name = codes "f";
  prototype = codes "int f(Rcpp::NumericMatrix m, const int n);";
  arguments = rows;
}

abbrev declarations : List Declared
declarations =
    record {
      is_const = true;
      namespace = rcpp;
      datatype_name = codes "NumericVector";
      variable_name = codes "v";
    }
    ∷ record {
      is_const = false;
      namespace = rcpp;
      datatype_name = codes "List";
      variable_name = codes "l";
    }
    ∷ []

abbrev listing : Function
listing = record function { arguments = map declared declarations }

supported-draw_all_example :
    (ks : List Kind) × (kinds rows ≡ some ks)
    × Meets (FaultsIfEmpty false) (draw_all (source false) ks) (HaveTypes (source false) ks)
unfolding unsupported_datatypes
supported-draw_all_example = supported-draw_all (source false) rows refl

abbrev has_runner_line : List Text → Bool
has_runner_line [] = false
has_runner_line (l ∷ ls) = is_runner_line l || has_runner_line ls

none_of : (ls : List Text) → has_runner_line ls ≡ false → All (λ l. is_runner_line l ≡ false) ls
none_of [] h = tt
none_of (l ∷ ls) h = (ground arith, none_of ls (ground arith))

harness_name_of-harness_example :
    harness_name_of (read_lines (harness (codes "my.pkg") (codes "/f") function checks))
    ≡ some (runner_test (codes "my.pkg"))
unfolding is_runner_line is_separator is_newline split_by before_runner generator_part unittest
    arg_name variable rtype_of range_comment print_value collect strip_end type_arg
harness_name_of-harness_example =
    harness_name_of-harness (codes "my.pkg") (codes "/f") function checks
      (refl, (refl, (refl, (refl, (refl, (refl, tt))))))
      (refl, (refl, (refl, (refl, (refl, (refl, tt))))))
      (none_of (read_lines (before_runner (codes "my.pkg") function checks)) refl)

-- The driver of a package, as deepstate_analyze_file starts it.
abbrev analysis : Text → Flags
analysis packagename = record no_flags {
  has_input_test_file = true;
  input_which_test = analyzed_test packagename;
}

abbrev generator : Text → TestInfo
generator packagename = record other_test { test_name = generator_test packagename }

abbrev runner : Text → TestInfo
runner packagename = record sum_test { test_name = runner_test packagename }

abbrev driver : Text → Host
driver packagename = record (host (analysis packagename)) {
  tests = generator packagename ∷ runner packagename ∷ [];
}

analysis_skips_example : run (driver (codes "my.pkg")) world ≡ (done 0, world)
analysis_skips_example =
    analysis_skips (codes "my.pkg") (driver (codes "my.pkg")) (generator (codes "my.pkg"))
      (runner (codes "my.pkg")) (refl, refl, refl, refl, refl) (refl, refl, refl) world refl

analysis_runs_example : (run (driver (codes "pkg")) world).0 ≡ done 1
unfolding to_read
analysis_runs_example =
    analysis_runs (codes "pkg") (driver (codes "pkg")) (generator (codes "pkg"))
      (runner (codes "pkg")) (refl, refl, refl, refl, refl) (refl, refl, refl) world refl refl refl
      refl

abbrev pub fuzzed : Folder
fuzzed = codes "f_DeepState_TestHarness.o" ∷ codes "f_DeepState_TestHarness" ∷ []

abbrev fuzzing : Options → Run ℕ
fuzzing o = record {
  exit_code = 77;
  valgrind_log_content = codes "INFO: Starting fuzzing" ∷ [];
  logtable = 2;
}

fuzz_fun_analyze_lem_example :
    fuzz_fun_analyze fuzzing links
      (codes "f")
      (pos 4)
      (pos 9)
      (some (harness (codes "my.pkg") (codes "/f") function infun))
      fuzzed
    ≡ some (asked_options (codes "my.pkg") (codes "f") (pos 4) (pos 9), 2)
unfolding is_runner_line is_separator is_newline split_by before_runner generator_part unittest
    arg_name variable rtype_of range_comment print_value collect strip_end type_arg fuzzing_crash
fuzz_fun_analyze_lem_example =
    fuzz_fun_analyze_lem fuzzing links (codes "my.pkg") (codes "/f") function (pos 4) (pos 9) fuzzed
      fuzzed refl refl (refl, (refl, (refl, (refl, (refl, (refl, tt))))))
      (refl, (refl, (refl, (refl, (refl, (refl, tt))))))
      (none_of (read_lines (before_runner (codes "my.pkg") function infun)) refl)

-- A range that the user has given.
abbrev given_range : List Text
given_range = codes "// RcppDeepState_int(low,high)" ∷ codes "  n[0]= RcppDeepState_int(1,9);" ∷ []

missing_ranges-harness_example :
    (missing_ranges false (read_lines (harness (codes "pkg") (codes "/f") function generation))
      ≡ none)
    × WarnsOf
        (codes " RcppDeepState_NumericMatrix();")
        (missing_ranges true (read_lines (harness (codes "pkg") (codes "/f") function generation)))
    × ((missing_ranges false given_range ≡ some [])
        ↔ All (λ l. ¬ IsMissing given_range l) given_range)
unfolding is_allowed type_arg args_of find_row
missing_ranges-harness_example =
    missing_ranges-harness (codes "pkg") (codes "/f") function []
      (argument (codes "Rcpp::NumericMatrix") (codes "m"))
      (argument (codes "const int") (codes "n") ∷ []) (codes "(row,column,low,high)") given_range
      refl tt refl refl
