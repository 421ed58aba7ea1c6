-- ===== src/Frontend/FuzzAnalyze/Laws.antt =====
-- On the harness that deepstate_fun_create writes, deepstate_fuzz_fun_analyze asks for its runner test.
use mathlib.Core.List.{append-nil}
use rcpp_deep_state.Base.{
  ℕ, ℤ, pos, negsuc, zero, suc, Option, ◌++◌, gsub, refl, ◌≡◌, ap, ◌∙◌, Bool, true, false, not,
  ◌||◌, ◌==◌, has_substring, List, [], ◌∷◌, none, some, All, codes, if◌then◌else◌, if_of_true,
  arith,
}
use rcpp_deep_state.Frontend.Types.{Text}
use rcpp_deep_state.Frontend.Harness.{infun, unittest, Function, harness}
use rcpp_deep_state.Frontend.TestNames.{runner_test, is_newline, read_lines, is_runner_line}
use rcpp_deep_state.Frontend.TestNames.Split.{IsWhole, IsPlain}
use rcpp_deep_state.Frontend.TestNames.Written.{before_runner, harness_name_of-harness}
use rcpp_deep_state.Frontend.Folder.{Folder, Make}
use rcpp_deep_state.Frontend.Fuzz.{is_positive, compiled}
use rcpp_deep_state.Frontend.Analyze.{Run, is_zero, fuzzing_crash}
use rcpp_deep_state.Frontend.FuzzAnalyze.{
  Options, unless_minus_one, executable_run, run_options, run_file, run_compiled, fuzz_fun_analyze,
}

abbrev pub says : Text → List Text → Bool
says message [] = false
says message (l ∷ ls) = has_substring l message || says message ls

-- The harness left with the code 0, or a line of the log says that the driver began to fuzz.
abbrev pub is_fuzzed : {Table : Type 0} → Run Table → Bool
is_fuzzed r = r.exit_code == 0 || says (codes "Starting fuzzing") r.valgrind_log_content

fuzzing_crash-says :
    (message : Text) (ls : List Text) → fuzzing_crash message ls ≡ not (says message ls)
unfolding fuzzing_crash
fuzzing_crash-says message [] = refl
fuzzing_crash-says message (l ∷ ls) = ground (arith, fuzzing_crash-says message ls)

is_zero_lem : (n : ℕ) → is_zero n ≡ (n == 0)
is_zero_lem zero = refl
is_zero_lem (suc n) = ground arith

-- The seed -1 is not passed on.
abbrev pub asked_seed : ℤ → Option ℤ
asked_seed (negsuc zero) = none
asked_seed seed = some seed

-- What is asked of valgrind: to run the harness of the function with the seed and the time limit
-- on the runner test of the package, whose name is without its dots.
abbrev pub asked_options : Text → Text → ℤ → ℤ → Options
asked_options packagename fun_name seed time_limit = record {
  executable = fun_name ++ codes "_DeepState_TestHarness";
  seed_param = asked_seed seed;
  timeout_param = some time_limit;
  input_which_test = gsub (codes ".") packagename ++ codes "_runner";
}

unless_minus_one-asked_seed : (seed : ℤ) → unless_minus_one seed ≡ asked_seed seed
unless_minus_one-asked_seed (pos n) = refl
unless_minus_one-asked_seed (negsuc zero) = refl
unless_minus_one-asked_seed (negsuc (suc n)) = refl

unless_minus_one-positive :
    (time_limit : ℤ) → is_positive time_limit ≡ true → unless_minus_one time_limit ≡ some time_limit
unless_minus_one-positive (pos n) h = refl
unless_minus_one-positive (negsuc n) h = cc

executable_run_lem :
    (packagename fun_name : Text) (seed time_limit : ℤ)
    → is_positive time_limit ≡ true
    → executable_run fun_name seed time_limit (runner_test packagename)
      ≡ asked_options packagename fun_name seed time_limit
unfolding unittest
executable_run_lem packagename fun_name seed time_limit positive =
    rw
      (
        append-nil (fun_name ++ codes "_DeepState_TestHarness"),
        unless_minus_one-asked_seed seed,
        unless_minus_one-positive time_limit positive,
      )
      refl

module _ {Table : Type 0} (valgrind : Options → Run Table) where
  run_options_lem :
      (o : Options)
      → run_options valgrind o
        ≡ (if is_fuzzed (valgrind o) then some (o, (valgrind o).logtable) else none)
  unfolding run_options
  run_options_lem o =
      let r : Run Table = valgrind o in
      ground (
        arith,
        is_zero_lem r.exit_code,
        fuzzing_crash-says (codes "Starting fuzzing") r.valgrind_log_content,
      )

  -- On the text of the harness that deepstate_fun_create writes for a package name without
  -- separators and line ends, compiled or to be compiled, and with a positive time limit,
  -- deepstate_fuzz_fun_analyze asks for the test of the name without its dots and with _runner
  -- after it, of the harness of the function, with the time limit, and with the seed unless it is
  -- -1; it gives the row of that run, or stops if it ended with another code than 0 and no line
  -- of the log says Starting fuzzing. No line before the runner test may look like its first.
  pub fuzz_fun_analyze_lem :
      (m : Make) (packagename fun_path : Text) (f : Function) (seed time_limit : ℤ) (d e : Folder)
      → compiled m f.fun_name infun d ≡ some e
      → is_positive time_limit ≡ true
      → IsPlain packagename
      → IsWhole is_newline packagename
      → All (λ l. is_runner_line l ≡ false) (read_lines (before_runner packagename f infun))
      → fuzz_fun_analyze valgrind m f.fun_name seed time_limit
          (some (harness packagename fun_path f infun))
          d
        ≡ (let o = asked_options packagename f.fun_name seed time_limit in
            if is_fuzzed (valgrind o) then some (o, (valgrind o).logtable) else none)
  unfolding fuzz_fun_analyze
  fuzz_fun_analyze_lem m packagename fun_path f seed time_limit d e built positive plain whole
        none_before =
      let text = harness packagename fun_path f infun in
      ap (run_compiled valgrind f.fun_name seed time_limit (some text)) built
      ∙ (if_of_true (is_positive time_limit)
            (run_file valgrind f.fun_name seed time_limit (some text)) none positive
          ∙ (ap
                (λ n. elim n [
                  | none ↦ none
                  | some name ↦
                      run_options valgrind (executable_run f.fun_name seed time_limit name)
                ])
                (harness_name_of-harness packagename fun_path f infun plain whole none_before)
              ∙ (ap (run_options valgrind)
                    (executable_run_lem packagename f.fun_name seed time_limit positive)
                  ∙ run_options_lem (asked_options packagename f.fun_name seed time_limit))))
