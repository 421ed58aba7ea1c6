-- ===== src/Tests/Package.antt =====
-- The results on the folders of a package, and on what is run in them, at concrete input.
use rcpp_deep_state.Base.{
  ℕ, ◌≢◌, ap, nth, pos, negsuc, arith, str_eq, if◌then◌else◌, ◌≡◌, refl, some, List, [], ◌∷◌, codes,
}
use rcpp_deep_state.Frontend.Types.{Text, type_arg, is_allowed, unsupported_datatypes}
use rcpp_deep_state.Frontend.Harness.{Function, infun, checks}
use rcpp_deep_state.Frontend.Folder.{links, add, create_in, editable_fun}
use rcpp_deep_state.Frontend.Folder.Editable.{OnlyEditableCompile, editable_fun-OnlyEditableCompile}
use rcpp_deep_state.Frontend.Package.{Tree, pkg_create}
use rcpp_deep_state.Frontend.Package.Loop.{AreDistinct}
use rcpp_deep_state.Frontend.Fuzz.{run_executable, fuzz_fun, compile_run}
use rcpp_deep_state.Frontend.Fuzz.Laws.{IsTimed, fuzz_fun-IsTimed}
use rcpp_deep_state.Frontend.Fuzz.Fresh.{no_files}
use rcpp_deep_state.Frontend.Fuzz.Run.{compile_run-links}
use rcpp_deep_state.Frontend.Description.{get_package_name}
use rcpp_deep_state.Frontend.Description.Laws.{get_package_name_lem}
use rcpp_deep_state.Frontend.Analyze.{exec, Run}
use rcpp_deep_state.Frontend.Analyze.Executable.{exec_lem}
use rcpp_deep_state.Frontend.Package.Again.{pkg_create_again}
use rcpp_deep_state.Tests.Frontend.{argument, function, fuzzed}

-- A second function, and a third whose datatype is not allowed.
abbrev other_function : Function
other_function = record {
  fun_name = codes "g";
  prototype = codes "int g(char c);";
  arguments = argument (codes "char") (codes "c") ∷ [];
}

abbrev unsupported_function : Function
unsupported_function = record {
  fun_name = codes "h";
  prototype = codes "int h(List l);";
  arguments = argument (codes "List") (codes "l") ∷ [];
}

editable_fun-OnlyEditableCompile_example :
    OnlyEditableCompile links (codes "f") (editable_fun function (create_in function infun []).1).1
unfolding create_in unsupported_datatypes add
editable_fun-OnlyEditableCompile_example =
    editable_fun-OnlyEditableCompile links function (create_in function infun []).1 refl refl refl

names_differ : codes "f" ≢ codes "g"
names_differ e = let q : ◌≡◌ {A = ℕ} 102 103 = ap (nth 0) e in omega arith

abbrev three : List Function
three = function ∷ unsupported_function ∷ other_function ∷ []

three-AreDistinct : AreDistinct three
three-AreDistinct = (
  (λ e. let q : ◌≡◌ {A = ℕ} 102 104 = ap (nth 0) e in omega arith, (names_differ, tt)),
  ((λ e. let q : ◌≡◌ {A = ℕ} 104 103 = ap (nth 0) e in omega arith, tt), (tt, tt)),
)

compile_run-links_example :
    compile_run links
      (codes "pkg")
      (pos 5)
      (negsuc 0)
      (function ∷ other_function ∷ [])
      (λ t. codes "f" ∷ codes "g" ∷ [])
      no_files
    ≡ some (codes "f" ∷ codes "g" ∷ [])
unfolding is_allowed type_arg
compile_run-links_example =
    compile_run-links (codes "pkg") (pos 5) (negsuc 0) function (other_function ∷ [])
      (λ t. codes "f" ∷ codes "g" ∷ []) refl ((names_differ, tt), (tt, tt))
      (((refl, (refl, tt)), ((refl, tt), tt)))
      (refl, ((names_differ, tt), (tt, tt)), (refl, (refl, tt)))

fuzz_fun-IsTimed_example :
    IsTimed (pos 7) (pos 2) (run_executable (codes "pkg") (codes "f") (pos 7) (pos 2) infun)
unfolding fuzz_fun add
fuzz_fun-IsTimed_example =
    fuzz_fun-IsTimed links (codes "pkg") (codes "f") (pos 7) (pos 2) infun fuzzed
      (run_executable (codes "pkg") (codes "f") (pos 7) (pos 2) infun) (some (codes "f")) refl

get_package_name_lem_example :
    get_package_name (some (codes "Title: T" ∷ codes "Package: pkg" ∷ codes "Version: 1" ∷ []))
    ≡ some (codes "pkg")
get_package_name_lem_example =
    get_package_name_lem (codes "Title: T" ∷ []) (codes "Version: 1" ∷ []) (codes "pkg") (refl, tt)
      refl

exec_lem_example : exec (codes "f_output_checks") ≡ codes "./f_DeepState_TestHarness_checks"
exec_lem_example = exec_lem (codes "f") checks refl

-- The file b kills the harness before it reads the input; the table of a run is a number.
abbrev valgrind : Text → Text → Text → Run ℕ
valgrind executable path test =
    if str_eq path (codes "b")
    then record { exit_code = 1; valgrind_log_content = codes "no such file" ∷ []; logtable = 0 }
    else record {
      exit_code = 1;
      valgrind_log_content = codes "Initialized test input buffer" ∷ [];
      logtable = 3;
    }

-- The harness of h, whose datatype is not allowed, was written by hand.
abbrev with_harness : Tree
with_harness name =
    if str_eq name (codes "h")
    then codes "h_DeepState_TestHarness.cpp" ∷ codes "h_log_text" ∷ []
    else []

pkg_create_again_example :
    (pkg_create three (pkg_create three with_harness).1).0 ≡ (pkg_create three with_harness).0
pkg_create_again_example = pkg_create_again three with_harness three-AreDistinct
