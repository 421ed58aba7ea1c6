-- ===== src/Tests/Makefile.antt =====
-- The results on the makefiles at concrete input.
use rcpp_deep_state.Base.{◌≡◌, refl, true, false, [], ◌++◌, codes}
use rcpp_deep_state.Frontend.Types.{Text}
use rcpp_deep_state.Frontend.Harness.{checks, infun}
use rcpp_deep_state.Frontend.Makefile.{
  paste, Paths, Library, settings, gen_rule, obj_rule, makefile, create_makefile_text,
  separate_makefile,
}
use rcpp_deep_state.Frontend.Makefile.Laws.{harness_path, separate_makefile-create_makefile_text}

abbrev paths : Paths
paths = record {
  home = codes "/R";
  home_include = codes "/R/include";
  home_lib = codes "/R/lib";
  rcpp_include = codes "/lib/RcppDeepState/include";
  rcppdeepstate_include = codes "/lib/Rcpp/include";
  rcpparmadillo_include = codes "/lib/RcppArmadillo/include";
  rinside_include = codes "/lib/RInside/include";
  qs_include = codes "/lib/qs/include";
  rinside_lib = codes "/lib/RInside/lib";
}

-- A package that installing builds.
abbrev unbuilt : Library
unbuilt = record { is_built = false; has_src = true; makevars = [] }

abbrev install : Library → Library
install l = record l { is_built = true }

abbrev written : Text
written = makefile paths (codes "p") (harness_path (codes "p") (codes "f") infun)

separate_makefile-create_makefile_text_example :
    separate_makefile (codes "p") (codes "f") checks written ++ codes "\n"
    ≡ makefile paths (codes "p") (harness_path (codes "p") (codes "f") checks)
unfolding settings paste create_makefile_text
separate_makefile-create_makefile_text_example =
    separate_makefile-create_makefile_text install paths (codes "p") (codes "f") unbuilt written
      checks refl refl refl refl refl refl

checks_obj_rule :
    obj_rule (harness_path (codes "p") (codes "f") checks)
    ≡ codes "p/inst/testfiles/f/f_DeepState_TestHarness_checks.o"
      ++ codes " : p/inst/testfiles/f/f_DeepState_TestHarness_checks.cpp"
      ++ codes "\n\tclang++ -g -gdwarf-4 -c  ${CPPFLAGS}"
      ++ codes " p/inst/testfiles/f/f_DeepState_TestHarness_checks.cpp"
      ++ codes " -o p/inst/testfiles/f/f_DeepState_TestHarness_checks.o\n"
unfolding obj_rule gen_rule
checks_obj_rule = refl

asks_for_symbols :
    (create_makefile_text install paths (codes "p") (codes "f") unbuilt).1.makevars
    ≡ codes "\nPKG_CXXFLAGS += -g \n\n"
unfolding create_makefile_text
asks_for_symbols = refl
