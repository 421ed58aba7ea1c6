-- ===== src/Frontend/Fuzz.antt =====
-- Running the harnesses (R/fun_harness_fuzz.R and R/pkg_harness_compile.R). The command line is the
-- options that it holds; what the executable does is Harness.
pub mod Laws
pub mod Fresh
pub mod Run
use rcpp_deep_state.Base.{
  ℕ, zero, suc, ltb, ℤ, pos, negsuc, Bool, true, false, ◌&&◌, Option, none, some, List, [], ◌∷◌,
  ◌++◌, codes, length, str_eq, is_in, if◌then◌else◌,
}
use rcpp_deep_state.Frontend.Types.{Text}
use rcpp_deep_state.Frontend.Harness.{Sep, infun, Function, suffix, test_harness}
use rcpp_deep_state.Frontend.TestNames.{fuzzed_test}
use rcpp_deep_state.Frontend.Folder.{Folder, add, output_dir, object, Make, compile_fun}
use rcpp_deep_state.Frontend.Package.{Tree, put, Created, harnesses, pkg_create}

-- `x == -1` and `x > 0`.
abbrev pub is_minus_one : ℤ → Bool
is_minus_one (pos n) = false
is_minus_one (negsuc zero) = true
is_minus_one (negsuc (suc n)) = false

abbrev pub is_positive : ℤ → Bool
is_positive (pos n) = ltb 0 n
is_positive (negsuc n) = false

-- The options in `run.executable`; --fuzz and --fuzz_save_passing are in each.
pub record Command : Type 0 where
  pub executable : Text
  pub seed : Option ℤ
  pub timeout : Option ℤ
  pub output_test_dir : Text
  pub input_which_test : Text

abbrev pub run_executable : Text → Text → ℤ → ℤ → Sep → Command
run_executable packagename fun_name seed time_limit_seconds sep =
    let with : Option ℤ → Option ℤ → Command = λ s t. record {
      executable = test_harness fun_name sep;
      seed = s;
      timeout = t;
      output_test_dir = output_dir fun_name sep;
      input_which_test = fuzzed_test packagename;
    } in
    if is_minus_one seed && is_minus_one time_limit_seconds
    then with none none
    else if is_minus_one seed
    then with none (some time_limit_seconds)
    else with (some seed) (some time_limit_seconds)

-- `execution`: the name of the function or NA.
abbrev pub execution : Text → Sep → Folder → Option Text
execution fun_name sep d =
    if is_in (object fun_name sep) d && is_in (test_harness fun_name sep) d
    then some fun_name
    else none

abbrev pub compiled : Make → Text → Sep → Folder → Option Folder
compiled m fun_name sep d =
    if is_in (object fun_name sep) d then some d else compile_fun m fun_name sep d

abbrev pub log_text : Text → Sep → Text
log_text fun_name sep = fun_name ++ suffix sep ++ codes "_log_text"

-- The run, and what is returned after it.
abbrev pub run_harness :
    Text → Text → ℤ → ℤ → Sep → Folder → Option (Command × Option Text) × Folder
run_harness packagename fun_name seed time_limit_seconds sep d =
    let after : Folder = add (log_text fun_name sep) d in
    (
      some (
        run_executable packagename fun_name seed time_limit_seconds sep,
        execution fun_name sep after,
      ),
      after,
    )

abbrev pub after_compile :
    Text → Text → ℤ → ℤ → Sep → Folder → Option Folder → Option (Command × Option Text) × Folder
after_compile packagename fun_name seed time_limit_seconds sep d none = (none, d)
after_compile packagename fun_name seed time_limit_seconds sep d (some d') =
    if is_positive time_limit_seconds
    then run_harness packagename fun_name seed time_limit_seconds sep d'
    else (none, d')

-- `deepstate_fuzz_fun` on the folder of the function; `none` where it stops.
unfoldable pub fuzz_fun :
    Make → Text → Text → ℤ → ℤ → Sep → Folder → Option (Command × Option Text) × Folder
unfolding compile_fun
fuzz_fun m packagename fun_name seed time_limit_seconds sep d =
    after_compile packagename fun_name seed time_limit_seconds sep d (compiled m fun_name sep d)

-- The names that come back: `compile.res == basename(fun.path)`.
abbrev pub keep : Text → Option Text → List Text → List Text
keep name none rest = rest
keep name (some r) rest = if str_eq r name then r ∷ rest else rest

abbrev pub keep_ran :
    Text → Option (Command × Option Text) → Option (List Text) → Option (List Text)
keep_ran name (some (c, r)) (some rest) = some (keep name r rest)
keep_ran name _ _ = none

-- The loop of deepstate_harness_compile_run over the folders, which gives `compiled.code`.
unfoldable pub fuzz_all : Make → Text → ℤ → ℤ → List Text → Tree → Option (List Text)
unfolding fuzz_fun put
fuzz_all m packagename seed time_limit_seconds [] t = some []
fuzz_all m packagename seed time_limit_seconds (name ∷ names) t =
    let r : Option (Command × Option Text) × Folder =
      fuzz_fun m packagename name seed time_limit_seconds infun (t name) in
    keep_ran name r.0 (fuzz_all m packagename seed time_limit_seconds names (put name r.1 t))

abbrev pub is_nonempty : List Text → Bool
is_nonempty [] = false
is_nonempty (n ∷ ns) = true

-- Whether deepstate_pkg_create came back.
abbrev pub is_created : Created → Bool
is_created (harnesses names) = true
is_created _ = false

-- `deepstate_harness_compile_run`, with what Sys.glob lists of the folders.
unfoldable pub compile_run :
    Make → Text → ℤ → ℤ → List Function → (Tree → List Text) → Tree → Option (List Text)
unfolding fuzz_all pkg_create
compile_run m packagename time_limit_seconds seed functions glob t =
    let (created, after) = pkg_create functions t in
    if is_positive time_limit_seconds && (is_created created && is_nonempty (glob after))
    then fuzz_all m packagename seed time_limit_seconds (glob after) after
    else none
