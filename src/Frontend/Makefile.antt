-- ===== src/Frontend/Makefile.antt =====
-- The makefile of a function (R/fun_makefile_create.R), and that of its generation or its checks
-- harness, which deepstate_fun_create makes from it (R/fun_harness_create.R). R's directories, those
-- of the installed packages and install.packages are parameters.
pub mod Lines
pub mod Rules
pub mod Laws
use rcpp_deep_state.Base.{
  ℕ, Bool, true, false, Option, none, some, List, [], ◌∷◌, ◌++◌, map, codes, gsub_by, if◌then◌else◌,
}
use rcpp_deep_state.Frontend.Types.{Text}
use rcpp_deep_state.Frontend.Harness.{Sep, infun, suffix, test_harness, ◌/◌}
use rcpp_deep_state.Frontend.TestNames.{read_lines}

-- What `R.home` and `system.file` give.
pub record Paths : Type 0 where
  pub home : Text
  pub home_include : Text
  pub home_lib : Text
  pub rcpp_include : Text
  pub rcppdeepstate_include : Text
  pub rcpparmadillo_include : Text
  pub rinside_include : Text
  pub qs_include : Text
  pub rinside_lib : Text

-- `paste(..., sep = sep)`, and `collapse`.
unfoldable pub paste : Text → List Text → Text
paste sep [] = []
paste sep (t ∷ []) = t
paste sep (t ∷ u ∷ ts) = t ++ (sep ++ paste sep (u ∷ ts))

abbrev pub deepstate_path : Text
deepstate_path = codes "${HOME}" / (codes ".RcppDeepState" / codes "deepstate-master")

abbrev pub deepstate_build : Text
deepstate_build = deepstate_path / codes "build"

abbrev pub deepstate_include : Text
deepstate_include = deepstate_path / (codes "src" / codes "include")

abbrev pub cppflags : Paths → List Text
cppflags r =
    r.rcpp_include
    ∷ r.rcppdeepstate_include
    ∷ r.rcpparmadillo_include
    ∷ r.rinside_include
    ∷ deepstate_build
    ∷ deepstate_include
    ∷ r.qs_include
    ∷ codes "${R_INCLUDE}"
    ∷ []

abbrev pub ldflag : Text → Text
ldflag path = codes "-L" ++ path ++ codes " -Wl,-rpath=" ++ path

abbrev pub ldflags : Paths → List Text
ldflags r = ldflag r.rinside_lib ∷ ldflag (codes "${R_LIB}") ∷ ldflag deepstate_build ∷ []

abbrev pub ldlibs : List Text
ldlibs = codes "-lR" ∷ codes "-lRInside" ∷ codes "-ldeepstate" ∷ []

-- `write_to_file` up to the rules.
unfoldable pub settings : Paths → Text
unfolding paste
settings r = paste (codes "\n") (
    (codes "R_HOME=" ++ r.home)
    ∷ (codes "R_INCLUDE=" ++ r.home_include)
    ∷ (codes "R_LIB=" ++ r.home_lib)
    ∷ codes "\n"
    ∷ (codes "CPPFLAGS=" ++ paste (codes " ") (map (λ flag. codes "-I" ++ flag) (cppflags r)))
    ∷ (codes "LDFLAGS=" ++ paste (codes " ") (ldflags r))
    ∷ (codes "LDLIBS=" ++ paste (codes " ") ldlibs)
    ∷ codes "\n"
    ∷ [])

abbrev pub fun_path : Text → Text → Text
fun_path package_path fun_name = package_path / (codes "inst" / (codes "testfiles" / fun_name))

abbrev pub shared_objects : Text → Text
shared_objects package_path = package_path / codes "src/*.so"

unfoldable pub gen_rule : Text → Text → Text → Text
gen_rule targets prerequisites recipe =
    targets ++ (codes " : " ++ (prerequisites ++ (codes "\n\t" ++ (recipe ++ codes "\n"))))

-- `obj_rule` and `exe_rule` for the path of a harness, without an ending.
unfoldable pub obj_rule : Text → Text
unfolding gen_rule
obj_rule harness_path = gen_rule (harness_path ++ codes ".o") (harness_path ++ codes ".cpp") (
    codes "clang++ -g -gdwarf-4 -c  ${CPPFLAGS} "
    ++ (harness_path ++ (codes ".cpp -o " ++ (harness_path ++ codes ".o"))))

unfoldable pub exe_rule : Text → Text → Text
unfolding gen_rule
exe_rule package_path harness_path = gen_rule harness_path (harness_path ++ codes ".o") (
    codes "clang++ -g -gdwarf-4 "
    ++ (harness_path
        ++ (codes ".o ${CPPFLAGS}  ${LDFLAGS}  ${LDLIBS} "
            ++ (shared_objects package_path ++ (codes " -o " ++ harness_path)))))

-- The lines of the file; `write` ends the last one.
unfoldable pub makefile : Paths → Text → Text → Text
unfolding settings obj_rule exe_rule
makefile r package_path harness_path =
    settings r
    ++ (codes "\n"
        ++ (exe_rule package_path harness_path
            ++ (codes "\n" ++ (obj_rule harness_path ++ codes "\n"))))

-- `src` of the package: whether a shared object is there, whether the directory is, and Makevars.
pub record Library : Type 0 where
  pub is_built : Bool
  pub has_src : Bool
  pub makevars : Text

-- The debugging symbols are asked for before the package is installed.
abbrev pub with_symbols : Library → Library
with_symbols l =
    if l.has_src then record l { makevars = l.makevars ++ codes "\nPKG_CXXFLAGS += -g \n\n" } else l

-- `deepstate_create_makefile`: the text of the makefile, or that it stops.
unfoldable pub create_makefile_text :
    (Library → Library) → Paths → Text → Text → Library → Option Text × Library
create_makefile_text install r package_path fun_name l =
    let text : Text =
      makefile r package_path (fun_path package_path fun_name / test_harness fun_name infun) in
    if l.is_built
    then (some text, l)
    else let after : Library = install (with_symbols l) in
      (if after.is_built then some text else none, after)

-- `makefile_lines` for a generation or a checks harness, as `cat` writes them.
unfoldable pub separate_makefile : Text → Text → Sep → Text → Text
unfolding paste gsub_by
separate_makefile package_path fun_name sep text = paste (codes "\n") (
    map
      (gsub_by (fun_path package_path fun_name / test_harness fun_name infun)
        (fun_path package_path fun_name / test_harness fun_name sep))
      (read_lines text))
