-- ===== src/Tests/PackageDetails.antt =====
-- The results on the functions in RcppExports.cpp at concrete input, from testSAN.
use rcpp_deep_state.Base.{◌≡◌, refl, List, [], ◌∷◌, codes}
use rcpp_deep_state.Frontend.Types.{Text}
use rcpp_deep_state.Frontend.PackageDetails.{trim, functions_of, get_package_details}
use rcpp_deep_state.Frontend.PackageDetails.Scan.{exports}
use rcpp_deep_state.Frontend.PackageDetails.Laws.{
  Declared, exported, declared_functions, functions_of-get_package_details,
}
use rcpp_deep_state.Tests.Frontend.{argument}

abbrev read_out_of_bound : Declared
read_out_of_bound = record {
  export = record {
    return_type = codes "int";
    fun_name = codes "rcpp_read_out_of_bound";
    parameters = codes "int rbound";
    sexp = codes "RcppExport SEXP _testSAN_rcpp_read_out_of_bound(SEXP rboundSEXP) {";
    code =
        codes "    Rcpp::RObject rcpp_result_gen;"
        ∷ codes "    Rcpp::RNGScope rcpp_rngScope_gen;"
        ∷ codes "    Rcpp::traits::input_parameter< int >::type rbound(rboundSEXP);"
        ∷ codes "    rcpp_result_gen = Rcpp::wrap(rcpp_read_out_of_bound(rbound));"
        ∷ codes "    return rcpp_result_gen;"
        ∷ [];
  };
  before = codes "    Rcpp::RObject rcpp_result_gen;\n    Rcpp::RNGScope rcpp_rngScope_gen;";
  arguments = argument (codes "int") (codes "rbound") ∷ [];
  after =
      codes
        "    rcpp_result_gen = Rcpp::wrap(rcpp_read_out_of_bound(rbound));\n    return rcpp_result_gen;\n";
}

abbrev file : List Text
file = exports (exported (read_out_of_bound ∷ []))

functions_of-get_package_details_example :
    functions_of (get_package_details ([] ∷ file)) ≡ declared_functions (read_out_of_bound ∷ [])
unfolding trim
functions_of-get_package_details_example =
    functions_of-get_package_details [] (read_out_of_bound ∷ []) (
      (
        (refl, refl, refl, (refl, (refl, (refl, (refl, (refl, tt)))))),
        refl,
        refl,
        ((refl, refl, refl, refl), tt),
        refl,
      ),
      tt,
    )

-- The comments at the top of the file are no functions.
after_header :
    get_package_details (
      codes "// Generated by using Rcpp::compileAttributes() -> do not edit by hand"
      ∷ codes "// Generator token: 10BE3573-1514-4C36-9D1C-5A225CD40393"
      ∷ []
      ∷ codes "#include <Rcpp.h>"
      ∷ []
      ∷ codes "using namespace Rcpp;"
      ∷ []
      ∷ file)
    ≡ get_package_details ([] ∷ file)
unfolding get_package_details
after_header = refl
