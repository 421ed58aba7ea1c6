-- ===== src/Frontend/SavedInputs/Rows.antt =====
-- The row that deepstate_analyze_file gives of a file, with the saved arguments and the table of the
-- log (R/analyze_binary_one.R, R/xml_log.R).
use rcpp_deep_state.Base.{
  ◌≡◌, ap, sym, ◌∙◌, subst, Bool, true, false, Option, none, some, List, [], map, All,
  if◌then◌else◌,
}
use rcpp_deep_state.Frontend.Types.{Text, Argument}
use rcpp_deep_state.Frontend.Harness.{arg_name, ◌/◌}
use rcpp_deep_state.Frontend.TestNames.{analyzed_test}
use rcpp_deep_state.Frontend.Analyze.{Run, Row, exec, analyze_file}
use rcpp_deep_state.Frontend.ValgrindLog.{SrcDir, Error, read_valgrind_xml}
use rcpp_deep_state.Frontend.ValgrindLog.Laws.{IsTableOf, read_valgrind_xml-IsTableOf}
use rcpp_deep_state.Frontend.SavedInputs.{Inputs, is_qs, saved_file, read_inputs}
use rcpp_deep_state.Frontend.SavedInputs.Names.{IsReadable, entry}
use rcpp_deep_state.Frontend.SavedInputs.Laws.{AreNamedApart, read_inputs-save_inputs}

-- What xml2 finds in the log of a run.
pub record Log : Type 0 where
  pub src_dir : Option SrcDir
  pub errors : List Error

abbrev pub Table : Type 0 → Type 0
Table Value = Inputs Value × Option (List rcpp_deep_state.Frontend.ValgrindLog.Row)

unless : {A : Type 0} (stop : Bool) (x r : A) → (if stop then none else some x) ≡ some r → x ≡ r
unless true x r h = cc
unless false x r h = cc

module _ {Value : Type 0} (qread scan : Text → Value) where
  -- `inputs_list` and `logtable`, after a run that leaves these files under inputs.
  unfoldable pub read_run : List Text → Run Log → Run (Table Value)
  read_run inputs_path run = record {
    exit_code = run.exit_code;
    valgrind_log_content = run.valgrind_log_content;
    logtable = (
      read_inputs qread scan [] inputs_path,
      read_valgrind_xml run.logtable.src_dir run.logtable.errors,
    );
  }

  -- `deepstate_analyze_file`, with the whole of its row.
  unfoldable pub analyze_file_row :
      List Text → (Text → Text → Text → Run Log) → Text → Text → Text → Option (Row (Table Value))
  analyze_file_row inputs_path valgrind packagename dir path =
      analyze_file (λ e p t. read_run inputs_path (valgrind e p t)) packagename dir path

  row_given :
      (inputs_path : List Text) (valgrind : Text → Text → Text → Run Log)
      (packagename dir path : Text) (r : Row (Table Value))
      → analyze_file_row inputs_path valgrind packagename dir path ≡ some r
      → let log : Log = (valgrind (exec dir) path (analyzed_test packagename)).logtable in
        ◌≡◌ {A = Row (Table Value)}
          (record {
            binaryfile = path;
            logtable =
                (read_inputs qread scan [] inputs_path, read_valgrind_xml log.src_dir log.errors);
          })
          r
  unfolding analyze_file_row analyze_file read_run
  row_given inputs_path valgrind packagename dir path r h = unless _ _ r h

-- A row that deepstate_analyze_file gives has the path of the file, each saved argument under its
-- name, and the table of what the log of that run reports, if the log has src.dir.xpath and the
-- names and the path of inputs are as for reading the arguments back.
pub analyze_file_row_lem :
    {Value : Type 0} (qread scan : Text → Value) (inputs_dir : Text) (arguments : List Argument)
    (valgrind : Text → Text → Text → Run Log) (packagename dir path : Text) (src_dir : SrcDir)
    (r : Row (Table Value))
    → is_qs inputs_dir ≡ false
    → All (λ a. IsReadable (arg_name a)) arguments
    → AreNamedApart arguments
    → (valgrind (exec dir) path (analyzed_test packagename)).logtable.src_dir ≡ some src_dir
    → analyze_file_row qread scan
        (map (λ a. inputs_dir / saved_file a) arguments)
        valgrind
        packagename
        dir
        path
      ≡ some r
    → (r.binaryfile ≡ path)
      × (r.logtable.0 ≡ map (entry qread scan inputs_dir) arguments)
      × IsTableOf src_dir
          (valgrind (exec dir) path (analyzed_test packagename)).logtable.errors
          r.logtable.1
analyze_file_row_lem qread scan inputs_dir arguments valgrind packagename dir path src_dir r h
      readable apart found given =
    let log : Log = (valgrind (exec dir) path (analyzed_test packagename)).logtable in
    let same =
      row_given qread scan (map (λ a. inputs_dir / saved_file a) arguments) valgrind packagename dir
        path r given in
    (
      sym (ap (λ q. q.binaryfile) same),
      sym (ap (λ q. q.logtable.0) same)
          ∙ (read_inputs-save_inputs qread scan inputs_dir arguments h readable apart).1,
      subst (IsTableOf src_dir log.errors) (ap (λ q. q.logtable.1) same) (
          subst (λ o. IsTableOf src_dir log.errors (read_valgrind_xml o log.errors)) (sym found)
            (read_valgrind_xml-IsTableOf src_dir log.errors)),
    )
