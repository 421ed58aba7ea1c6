-- ===== src/Frontend/FuzzAnalyze.antt =====
-- Fuzzing the runner test of a harness under valgrind (deepstate_fuzz_fun_analyze of
-- R/analyze_binary.R). Valgrind, and the reading of its log, are a parameter.
pub mod Laws
use rcpp_deep_state.Base.{
  ℕ, ℤ, Bool, true, false, not, ◌&&◌, Option, none, some, List, codes, if◌then◌else◌,
}
use rcpp_deep_state.Frontend.Types.{Text}
use rcpp_deep_state.Frontend.Harness.{infun, test_harness}
use rcpp_deep_state.Frontend.TestNames.{read_lines, harness_name_of}
use rcpp_deep_state.Frontend.Folder.{Folder, Make, compile_fun}
use rcpp_deep_state.Frontend.Fuzz.{is_minus_one, is_positive, compiled}
use rcpp_deep_state.Frontend.Analyze.{Run, is_zero, fuzzing_crash}

-- The options in `executable_run`; --fuzz is there too.
pub record Options : Type 0 where
  pub executable : Text
  pub seed_param : Option ℤ
  pub timeout_param : Option ℤ
  pub input_which_test : Text

-- A parameter that is left out at -1.
abbrev pub unless_minus_one : ℤ → Option ℤ
unless_minus_one z = if not (is_minus_one z) then some z else none

abbrev pub executable_run : Text → ℤ → ℤ → Text → Options
executable_run fun_name seed time_limit runner_harness_name = record {
  executable = test_harness fun_name infun;
  seed_param = unless_minus_one seed;
  timeout_param = unless_minus_one time_limit;
  input_which_test = runner_harness_name;
}

module _ {Table : Type 0} (valgrind : Options → Run Table) where
  -- The row, with the options that gave it, or a stop.
  unfoldable pub run_options : Options → Option (Options × Table)
  unfolding fuzzing_crash
  run_options o =
      let run : Run Table = valgrind o in
      if not (is_zero run.exit_code)
        && fuzzing_crash (codes "Starting fuzzing") run.valgrind_log_content
      then none
      else some (o, run.logtable)

  -- The name of the test is read from the file of the harness, which may not be there.
  abbrev pub run_file : Text → ℤ → ℤ → Option Text → Option (Options × Table)
  run_file fun_name seed time_limit none = none
  run_file fun_name seed time_limit (some harness_file) =
      elim (harness_name_of (read_lines harness_file)) [
        | none ↦ none
        | some name ↦ run_options (executable_run fun_name seed time_limit name)
      ]

  abbrev pub run_compiled : Text → ℤ → ℤ → Option Text → Option Folder → Option (Options × Table)
  run_compiled fun_name seed time_limit harness_file none = none
  run_compiled fun_name seed time_limit harness_file (some d) =
      if is_positive time_limit then run_file fun_name seed time_limit harness_file else none

  -- `deepstate_fuzz_fun_analyze`, without the saved inputs of the row.
  unfoldable pub fuzz_fun_analyze :
      Make → Text → ℤ → ℤ → Option Text → Folder → Option (Options × Table)
  unfolding run_options harness_name_of compile_fun
  fuzz_fun_analyze m fun_name seed time_limit harness_file d =
      run_compiled fun_name seed time_limit harness_file (compiled m fun_name infun d)
