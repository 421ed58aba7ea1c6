-- ===== src/Frontend/PackageDetails/Laws.antt =====
-- The functions are read back from the file that Rcpp::compileAttributes writes.
use rcpp_deep_state.Base.{◌≡◌, refl, ap, ap₂, ◌∙◌, false, List, [], ◌∷◌, All, map, has_substring}
use rcpp_deep_state.Frontend.Types.{Text, Argument}
use rcpp_deep_state.Frontend.Harness.{Function}
use rcpp_deep_state.Frontend.Exports.{input_parameter, get_function_body}
use rcpp_deep_state.Frontend.Exports.Arguments.{
  wrapper, IsDeclared, captured_all, get_function_body-wrapper,
}
use rcpp_deep_state.Frontend.PackageDetails.{
  get_package_details, code_text, cons_function, functions_of,
}
use rcpp_deep_state.Frontend.PackageDetails.Scan.{
  Export, exports, IsExport, details_of, scan-exports,
}

-- A function with its declared arguments, and the texts of its code before and after them.
pub record Declared : Type 0 where
  pub export : Export
  pub before : Text
  pub arguments : List Argument
  pub after : Text

abbrev pub IsWrapped : Declared → Type 0
IsWrapped d =
    IsExport d.export
    × (code_text d.export.code ≡ wrapper d.before d.arguments d.after)
    × (has_substring d.before input_parameter ≡ false)
    × All IsDeclared d.arguments
    × (has_substring d.after input_parameter ≡ false)

abbrev pub exported : List Declared → List Export
exported [] = []
exported (d ∷ ds) = d.export ∷ exported ds

-- The functions that have arguments.
abbrev pub declared_functions : List Declared → List Function
declared_functions [] = []
declared_functions (d ∷ ds) =
    cons_function (details_of d.export) (captured_all d.arguments) (declared_functions ds)

exported-IsExport : (ds : List Declared) → All IsWrapped ds → All IsExport (exported ds)
exported-IsExport [] h = tt
exported-IsExport (d ∷ ds) h = (h.0.0, exported-IsExport ds h.1)

functions_of-exported :
    (ds : List Declared)
    → All IsWrapped ds
    → functions_of (map details_of (exported ds)) ≡ declared_functions ds
unfolding functions_of
functions_of-exported [] h = refl
functions_of-exported (d ∷ ds) h =
    let (is_export, same_code, none_before, arguments, none_after) = h.0 in
    ap₂ (cons_function (details_of d.export))
      (ap get_function_body same_code
        ∙ get_function_body-wrapper d.before d.arguments d.after none_before arguments none_after)
      (functions_of-exported ds h.1)

-- From one line and after it the functions as Rcpp::compileAttributes writes them, the functions
-- that have arguments are read in order, each with its name, its prototype and its declared
-- arguments, the spaces beside the types and the names kept; names have no space and no opening
-- parenthesis, parameters no opening one and types no `>::type` and no line end, no line of the
-- code begins with END_RCPP, and the text of the code around the arguments has no
-- `input_parameter< `.
pub functions_of-get_package_details :
    (first_line : Text) (ds : List Declared)
    → All IsWrapped ds
    → functions_of (get_package_details (first_line ∷ exports (exported ds)))
      ≡ declared_functions ds
unfolding get_package_details
functions_of-get_package_details first_line ds h =
    ap functions_of (scan-exports (exported ds) (exported-IsExport ds h))
    ∙ functions_of-exported ds h
