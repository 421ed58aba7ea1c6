-- ===== src/Frontend/FileNames.antt =====
-- The lists of paths of R/files_names.R, and the paths of the same files as R/fun_harness_create.R,
-- R/fun_makefile_create.R and R/fun_harness_fuzz.R make them.
pub mod Laws
use rcpp_deep_state.Base.{List, [], ◌∷◌, ◌++◌, map, codes, gsub, is_in, if◌then◌else◌}
use rcpp_deep_state.Frontend.Types.{Text, Argument}
use rcpp_deep_state.Frontend.Harness.{infun, filename, arg_name, ◌/◌}
use rcpp_deep_state.Frontend.Folder.{output_dir}

-- `unique(functions.list$funName)`, with the names before.
unfoldable pub unique_names : List Text → List Text → List Text
unique_names seen [] = []
unique_names seen (n ∷ names) =
    let rest = unique_names (n ∷ seen) names in if is_in n seen then rest else n ∷ rest

-- The elements of the lists, for a function.
unfoldable pub listed_harness : Text → Text → Text
listed_harness test_path function_name =
    gsub (codes "rcpp_") (test_path / (function_name ++ codes "_DeepState_TestHarness.cpp"))

unfoldable pub listed_makefile : Text → Text → Text
listed_makefile test_path function_name =
    gsub (codes "rcpp_") (test_path / (function_name ++ codes ".Makefile"))

unfoldable pub listed_log : Text → Text → Text
listed_log test_path function_name =
    gsub (codes "rcpp_") (test_path / (function_name / (function_name ++ codes "_log")))

unfoldable pub listed_output : Text → Text → Text
listed_output test_path function_name =
    gsub (codes "rcpp_") (test_path / (function_name ++ codes "_output"))

-- `c(harnessfiles.list, makefiles.list)`, and the lists of the logs and of the output directories.
unfoldable pub harness_files : Text → List Text → List Text
harness_files test_path functions =
    let fun_names : List Text = unique_names [] functions in
    map (listed_harness test_path) fun_names ++ map (listed_makefile test_path) fun_names

unfoldable pub list_log_files : Text → List Text → List Text
list_log_files test_path functions = map (listed_log test_path) (unique_names [] functions)

unfoldable pub list_bin_directory : Text → List Text → List Text
list_bin_directory test_path functions = map (listed_output test_path) (unique_names [] functions)

-- `deepstate_list_package_args`, which prints them too.
unfoldable pub list_package_args : Text → List Argument → List Text
list_package_args test_path arguments = map (λ a. test_path / arg_name a) arguments

-- The paths that the package makes.
abbrev pub harness_file : Text → Text → Text
harness_file test_path fun_name = test_path / (fun_name / filename fun_name infun)

abbrev pub makefile_file : Text → Text → Text
makefile_file test_path fun_name = test_path / (fun_name / codes "Makefile")

abbrev pub log_file : Text → Text → Text
log_file test_path fun_name = test_path / (fun_name / (fun_name ++ codes "_log"))

abbrev pub output_directory : Text → Text → Text
output_directory test_path fun_name = test_path / (fun_name / output_dir fun_name infun)
