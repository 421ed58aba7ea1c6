-- ===== src/Tests/Exports.antt =====
-- The results on RcppExports.cpp at concrete input: the wrapper of a function of testSAN and one with
-- two arguments.
use rcpp_deep_state.Base.{◌≡◌, refl, false, List, [], ◌∷◌, ◌++◌, codes}
use rcpp_deep_state.Frontend.Types.{Text, Argument}
use rcpp_deep_state.Frontend.Harness.{generation, fun_create}
use rcpp_deep_state.Frontend.Exports.Arguments.{wrapper, captured_all}
use rcpp_deep_state.Frontend.Exports.Laws.{with_body, fun_create-get_function_body}
use rcpp_deep_state.Tests.Frontend.{argument, rows, function}

abbrev before : Text
before = codes "    Rcpp::RObject rcpp_result_gen;\n    Rcpp::RNGScope rcpp_rngScope_gen;"

abbrev after : Text
after = codes "    rcpp_result_gen = Rcpp::wrap(f(m, n));\n    return rcpp_result_gen;\n"

abbrev rbound : List Argument
rbound = argument (codes "int") (codes "rbound") ∷ []

test_san_wrapper :
    wrapper before rbound
      (codes "    rcpp_result_gen = Rcpp::wrap(rcpp_read_out_of_bound(rbound));\n")
    ≡ codes "    Rcpp::RObject rcpp_result_gen;\n    Rcpp::RNGScope rcpp_rngScope_gen;\n"
      ++ codes "    Rcpp::traits::input_parameter< int >::type rbound(rboundSEXP);\n"
      ++ codes "    rcpp_result_gen = Rcpp::wrap(rcpp_read_out_of_bound(rbound));\n"
test_san_wrapper = refl

spaces_are_kept : captured_all rbound ≡ argument (codes "int ") (codes " rbound") ∷ []
spaces_are_kept = refl

fun_create-get_function_body_example :
    fun_create
      (codes "pkg")
      (codes "/f")
      false
      (with_body function (wrapper before rows after))
      generation
    ≡ fun_create (codes "pkg") (codes "/f") false function generation
fun_create-get_function_body_example =
    fun_create-get_function_body (codes "pkg") (codes "/f") false function generation before after
      refl ((refl, refl, refl, refl), ((refl, refl, refl, refl), tt)) refl
