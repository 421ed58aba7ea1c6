-- ===== src/Tests/SavedInputs.antt =====
-- The results on the saved arguments at concrete input.
use rcpp_deep_state.Base.{some, ◌≡◌, refl, false, Bool, List, [], ◌∷◌, map, All, codes}
use rcpp_deep_state.Frontend.Types.{Text, Argument}
use rcpp_deep_state.Frontend.Harness.{arg_name, ◌/◌}
use rcpp_deep_state.Frontend.SavedInputs.{saved_file, read_inputs, input_name}
use rcpp_deep_state.Frontend.SavedInputs.Names.{entry}
use rcpp_deep_state.Frontend.SavedInputs.Laws.{IsSavedIn, read_inputs-save_inputs}
use rcpp_deep_state.Frontend.SavedInputs.Rows.{
  Log, Table, read_run, analyze_file_row, analyze_file_row_lem,
}
use rcpp_deep_state.Frontend.Analyze.{Run, Row, fuzzing_crash, analyze_file}
use rcpp_deep_state.Frontend.ValgrindLog.{read_valgrind_xml}
use rcpp_deep_state.Frontend.ValgrindLog.Laws.{IsTableOf}
use rcpp_deep_state.Tests.ValgrindLog.{src, use_after_free}
use rcpp_deep_state.Tests.Frontend.{argument}

abbrev saved : List Argument
saved = argument (codes "arma::mat") (codes "m") ∷ argument (codes "int") (codes "n") ∷ []

abbrev inputs_dir : Text
inputs_dir = codes "/p/inst/testfiles/f/inputs"

abbrev qread : Text → Bool × Text
qread path = (false, path)

read_inputs-save_inputs_example :
    All (IsSavedIn inputs_dir) saved
    × (read_inputs qread qread [] (map (λ a. inputs_dir / saved_file a) saved)
        ≡ map (entry qread qread inputs_dir) saved)
unfolding arg_name
read_inputs-save_inputs_example =
    read_inputs-save_inputs qread qread inputs_dir saved refl
      ((refl, refl, refl), ((refl, refl, refl), tt)) ((refl, tt), (tt, tt))

names_are_cut : input_name (codes "/p/inputs/seqs.qs") ≡ codes "s"
unfolding input_name
names_are_cut = refl

-- A run that ends with an error code after the driver has read the input.
abbrev valgrind : Text → Text → Text → Run Log
valgrind e p t = record {
  exit_code = 1;
  valgrind_log_content = codes "INFO: Initialized test input buffer with data from `a`" ∷ [];
  logtable = record { src_dir = some src; errors = use_after_free ∷ [] };
}

abbrev row : Row (Table (Bool × Text))
row = record {
  binaryfile = codes "a";
  logtable = (
    read_inputs qread qread [] (map (λ a. inputs_dir / saved_file a) saved),
    read_valgrind_xml (some src) (use_after_free ∷ []),
  );
}

analyze_file_row_lem_example :
    (row.binaryfile ≡ codes "a")
    × (row.logtable.0 ≡ map (entry qread qread inputs_dir) saved)
    × IsTableOf src (use_after_free ∷ []) row.logtable.1
unfolding arg_name analyze_file_row analyze_file fuzzing_crash read_run
analyze_file_row_lem_example =
    analyze_file_row_lem qread qread inputs_dir saved valgrind (codes "pkg") (codes "f_output")
      (codes "a") src row refl ((refl, refl, refl), ((refl, refl, refl), tt)) ((refl, tt), (tt, tt))
      refl refl
