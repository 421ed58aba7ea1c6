-- ===== src/Frontend/Harness.antt =====
-- The text of a test harness (deepstate_fun_create of R/fun_harness_create.R).
pub mod Laws
pub mod Spelled
use rcpp_deep_state.Base.{
  ℕ, Bool, true, false, not, ◌||◌, Option, none, some, List, [], ◌∷◌, ◌++◌, codes, str_eq, gsub,
  if◌then◌else◌,
}
use rcpp_deep_state.Frontend.Types.{
  Text, Argument, rtype_of, args_of, arg_type, type_arg, unsupported_datatypes,
}

-- The argument `sep`: "infun", "generation" or "checks".
pub data Sep : Type 0 where
  infun generation checks : Sep

-- A function of the package under test, with the rows of its arguments; one without arguments has no
-- rows and is not listed.
pub record Function : Type 0 where
  pub fun_name : Text
  pub prototype : Text
  pub arguments : List Argument

infixr 65 ◌/◌
-- `file.path`.
abbrev pub ◌/◌ : Text → Text → Text
a / b = a ++ (b'/' ∷ b)

abbrev pub suffix : Sep → Text
suffix infun = []
suffix generation = codes "_generation"
suffix checks = codes "_checks"

-- The name of the executable, and `filename`.
abbrev pub test_harness : Text → Sep → Text
test_harness fun_name sep = fun_name ++ codes "_DeepState_TestHarness" ++ suffix sep

abbrev pub filename : Text → Sep → Text
filename fun_name sep = test_harness fun_name sep ++ codes ".cpp"

-- `unittest`: the name of the package without its dots.
unfoldable pub unittest : Text → Text
unfolding gsub
unittest packagename = gsub (codes ".") packagename

abbrev pub headers : Text
headers =
    codes
      "#include <fstream>\n#include <RInside.h>\n#include <iostream>\n#include <RcppDeepState.h>\n"
    ++ codes "#include <qs.h>\n#include <DeepState.hpp>\n\n"

-- `arg.name`.
unfoldable pub arg_name : Argument → Text
unfolding gsub
arg_name a = gsub (codes " ") a.argument_name

-- The declaration of an argument in INPUTS; `const` is removed from the whole of it.
unfoldable pub variable : Argument → Text
unfolding gsub
variable a =
    let name = arg_name a in
    let declared : Text = elim (rtype_of (type_arg a.argument_type)) [
      | some rtype ↦
          codes "  " ++ rtype ++ codes " " ++ name ++ codes "(1); \\\n  " ++ name ++ codes "[0]"
      | none ↦ codes "  " ++ arg_type a.argument_type ++ codes " " ++ name
    ] in
    gsub (codes "const")
      (declared ++ codes "= RcppDeepState_" ++ type_arg a.argument_type ++ codes "(); \\\n")

-- The line on the range of an argument in a generation harness.
unfoldable pub range_comment : Argument → Text
range_comment a = elim (args_of (type_arg a.argument_type)) [
  | some args ↦ codes "// RcppDeepState_" ++ type_arg a.argument_type ++ args ++ codes "\n"
  | none ↦ []
]

-- `save_inputs`.
unfoldable pub save_inputs : Text → Argument → Text
save_inputs inputs_path a =
    let name = arg_name a in
    if str_eq (type_arg a.argument_type) (codes "mat")
    then codes "std::ofstream "
      ++ name
      ++ codes "_stream;\n  "
      ++ name
      ++ codes "_stream.open(\""
      ++ (inputs_path / name)
      ++ codes "\" );\n  "
      ++ name
      ++ codes "_stream << "
      ++ name
      ++ codes ";\n  "
      ++ name
      ++ codes "_stream.close(); \n"
    else codes "qs::c_qsave("
      ++ name
      ++ codes ",\""
      ++ (inputs_path / (name ++ codes ".qs"))
      ++ codes "\",\n\t\t\"high\", \"zstd\", 1, 15, true, 1);\n"

unfoldable pub print_value : Argument → Text
print_value a =
    let name = arg_name a in
    codes "  std::cout << \""
    ++ name
    ++ codes " values: \" << "
    ++ name
    ++ codes " << std::endl; \\\n"

-- What the function under test is given for the argument.
unfoldable pub proto_arg : Argument → Text
proto_arg a =
    let name = arg_name a in
    if str_eq (type_arg a.argument_type) (codes "string")
    then codes "Rcpp::as<std::string>(" ++ name ++ codes "[0])"
    else elim (rtype_of (type_arg a.argument_type)) [
      | some rtype ↦ name ++ codes "[0]"
      | none ↦ name
    ]

-- The texts of the loop over the arguments.
unfoldable pub collect : (Argument → Text) → List Argument → Text
collect f [] = []
collect f (a ∷ more) = f a ++ collect f more

-- `gsub(",$", "", proto_args)`: the arguments with commas between them.
unfoldable pub proto_args : List Argument → Text
proto_args [] = []
proto_args (a ∷ []) = proto_arg a
proto_args (a ∷ b ∷ more) = proto_arg a ++ codes "," ++ proto_args (b ∷ more)

-- `gsub("\\\\\n$", "", inputs)`: without a backslash and a line end at its end.
unfoldable pub strip_end : Text → Text
strip_end [] = []
strip_end (c ∷ s) = if str_eq (c ∷ s) (codes "\\\n") then [] else c ∷ strip_end s

-- `write_to_file` up to the prototype: what each kind of harness begins with.
abbrev pub comment : Text → Sep → Text
comment fun_name infun =
    codes "// AUTOMATICALLY GENERATED BY RCPPDEEPSTATE PLEASE DONOT EDIT BY HAND, INSTEAD EDIT\n// "
    ++ fun_name
    ++ codes "_DeepState_TestHarness_generation.cpp and "
    ++ fun_name
    ++ codes "_DeepState_TestHarness_checks.cpp\n\n"
comment fun_name generation = []
comment fun_name checks = []

abbrev pub generation_comment : Sep → List Argument → Text
generation_comment generation rows =
    codes "// RANGES CAN BE ADDED HERE\n" ++ collect range_comment rows
generation_comment infun rows = []
generation_comment checks rows = []

-- `#define INPUTS`, which draws the arguments.
abbrev pub inputs : List Argument → Text
inputs rows = strip_end (codes "#define INPUTS \\\n" ++ collect variable rows)

abbrev pub print_values : List Argument → Text
print_values rows =
    codes "\n\n#define PRINT_INPUTS \\\n  std::cout << \"input starts\" << std::endl;\\\n"
    ++ collect print_value rows
    ++ codes "  std::cout << \"input ends\" << std::endl;\n"

-- `inputs_dump`.
abbrev pub inputs_dump : Text → List Argument → Text
inputs_dump inputs_path rows = collect (λ a. codes "  " ++ save_inputs inputs_path a) rows

-- A test of the harness begins so.
abbrev pub test_header : Text → Text → Text
test_header packagename name =
    codes "\n\nTEST(" ++ unittest packagename ++ codes ", " ++ name ++ codes "){\n"

abbrev pub assert_comment : Sep → Text
assert_comment checks = codes "    //ASSERT CONDITIONS CAN BE ADDED HERE\n"
assert_comment infun = []
assert_comment generation = []

abbrev pub runner_body : Text → Function → Sep → Text
runner_body inputs_path f sep =
    codes "  INPUTS\n  PRINT_INPUTS\n"
    ++ inputs_dump inputs_path f.arguments
    ++ codes "  try{\n    "
    ++ f.fun_name
    ++ codes "("
    ++ proto_args f.arguments
    ++ codes ");\n"
    ++ assert_comment sep
    ++ codes "  }catch(Rcpp::exception& e){\n    std::cout<<\"Exception Handled\"<<std::endl;\n  }"

-- What is written to the file; `write` ends the last line.
unfoldable pub harness : Text → Text → Function → Sep → Text
harness packagename fun_path f sep =
    comment f.fun_name sep
    ++ headers
    ++ codes "RInside Rinstance;\n\n"
    ++ f.prototype
    ++ codes "\n\n"
    ++ generation_comment sep f.arguments
    ++ inputs f.arguments
    ++ print_values f.arguments
    ++ test_header packagename (codes "generator")
    ++ codes "  INPUTS\n  PRINT_INPUTS\n}"
    ++ test_header packagename (codes "runner")
    ++ runner_body (fun_path / codes "inputs") f sep
    ++ codes "\n}\n"

-- What deepstate_fun_create gives: the name of a harness that was there, that of a new one with its
-- text, or NA for a function with unsupported datatypes.
pub data Created : Type 0 where
  already : Text → Created
  written : Text → Text → Created
  refused : List Text → Created

unfoldable pub after_check : Text → Text → Function → Sep → List Text → Created
after_check packagename fun_path f sep [] =
    written (filename f.fun_name sep) (harness packagename fun_path f sep)
after_check packagename fun_path f sep (t ∷ ts) = refused (t ∷ ts)

-- The flag says whether the file of the harness exists.
unfoldable pub fun_create : Text → Text → Bool → Function → Sep → Created
fun_create packagename fun_path exists f sep =
    if exists
    then already (filename f.fun_name sep)
    else after_check packagename fun_path f sep (unsupported_datatypes f.arguments)
