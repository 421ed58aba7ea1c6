-- ===== src/Frontend/Exports/Laws.antt =====
-- The harness of a function that is read from RcppExports.cpp is that of its declared arguments.
use rcpp_deep_state.Base.{
  ◌≡◌, refl, ap, ◌∙◌, Bool, false, if◌then◌else◌, List, [], ◌∷◌, ◌++◌, All, codes, has_substring,
}
use rcpp_deep_state.Frontend.Types.{Text, Argument, unsupported_datatypes}
use rcpp_deep_state.Frontend.Harness.{
  Sep, infun, generation, checks, Function, variable, range_comment, save_inputs, print_value,
  filename, already, written, ◌/◌, comment, headers, strip_end, test_header, assert_comment,
  harness, generation_comment, fun_create, after_check,
}
use rcpp_deep_state.Frontend.Exports.{input_parameter, get_function_body}
use rcpp_deep_state.Frontend.Exports.Alike.{
  variable-AreAlike, range_comment-AreAlike, save_inputs-AreAlike, print_value-AreAlike,
  collect-captured_all, proto_args-captured_all, unsupported_datatypes-captured_all,
}
use rcpp_deep_state.Frontend.Exports.Arguments.{
  wrapper, IsDeclared, captured_all, get_function_body-wrapper,
}

-- The function with the arguments as they are read.
abbrev pub read_function : Function → Function
read_function f = record f { arguments = captured_all f.arguments }

range_comments-captured_all :
    (sep : Sep) (arguments : List Argument)
    → generation_comment sep (captured_all arguments) ≡ generation_comment sep arguments
range_comments-captured_all generation arguments =
    ap (λ t. codes "// RANGES CAN BE ADDED HERE\n" ++ t)
      (collect-captured_all range_comment range_comment-AreAlike arguments)
range_comments-captured_all infun arguments = refl
range_comments-captured_all checks arguments = refl

harness-read_function :
    (packagename fun_path : Text) (f : Function) (sep : Sep)
    → harness packagename fun_path (read_function f) sep ≡ harness packagename fun_path f sep
unfolding harness
harness-read_function packagename fun_path f sep =
    let inputs_path : Text = fun_path / codes "inputs" in
    let ranges = range_comments-captured_all sep f.arguments in
    let variables = collect-captured_all variable variable-AreAlike f.arguments in
    let values = collect-captured_all print_value print_value-AreAlike f.arguments in
    let dumps =
      collect-captured_all (λ a. codes "  " ++ save_inputs inputs_path a)
        (λ a b alike. ap (λ t. codes "  " ++ t) (save_inputs-AreAlike inputs_path a b alike))
        f.arguments in
    let args = proto_args-captured_all f.arguments in
    λ i.
      comment f.fun_name sep
      ++ headers
      ++ codes "RInside Rinstance;\n\n"
      ++ f.prototype
      ++ codes "\n\n"
      ++ ranges i
      ++ strip_end (codes "#define INPUTS \\\n" ++ variables i)
      ++ (codes "\n\n#define PRINT_INPUTS \\\n  std::cout << \"input starts\" << std::endl;\\\n"
          ++ values i
          ++ codes "  std::cout << \"input ends\" << std::endl;\n")
      ++ test_header packagename (codes "generator")
      ++ codes "  INPUTS\n  PRINT_INPUTS\n}"
      ++ test_header packagename (codes "runner")
      ++ (codes "  INPUTS\n  PRINT_INPUTS\n"
          ++ dumps i
          ++ codes "  try{\n    "
          ++ f.fun_name
          ++ codes "("
          ++ args i
          ++ codes ");\n"
          ++ assert_comment sep
          ++ codes
              "  }catch(Rcpp::exception& e){\n    std::cout<<\"Exception Handled\"<<std::endl;\n  }")
      ++ codes "\n}\n"

after_check-read_function :
    (packagename fun_path : Text) (f : Function) (sep : Sep) (unsupported : List Text)
    → after_check packagename fun_path (read_function f) sep unsupported
      ≡ after_check packagename fun_path f sep unsupported
unfolding after_check
after_check-read_function packagename fun_path f sep [] =
    ap (written (filename f.fun_name sep)) (harness-read_function packagename fun_path f sep)
after_check-read_function packagename fun_path f sep (t ∷ ts) = refl

-- The function as it is read from its wrapper.
abbrev pub with_body : Function → Text → Function
with_body f code = record f { arguments = get_function_body code }

-- With the arguments that deepstate_get_function_body reads from the wrapper of a function in
-- RcppExports.cpp deepstate_fun_create does what it does with the declared arguments, the text of
-- the harness and the refused datatypes included; the types have no `>::type` and no line end,
-- the names no space and no opening parenthesis, and the text around the arguments has no
-- `input_parameter< `.
pub fun_create-get_function_body :
    (packagename fun_path : Text) (exists : Bool) (f : Function) (sep : Sep) (before after : Text)
    → has_substring before input_parameter ≡ false
    → All IsDeclared f.arguments
    → has_substring after input_parameter ≡ false
    → fun_create packagename fun_path exists (with_body f (wrapper before f.arguments after)) sep
      ≡ fun_create packagename fun_path exists f sep
unfolding fun_create
fun_create-get_function_body packagename fun_path exists f sep before after h declared k =
    ap (λ args. fun_create packagename fun_path exists (record f { arguments = args }) sep)
      (get_function_body-wrapper before f.arguments after h declared k)
    ∙ ap (λ c. if exists then already (filename f.fun_name sep) else c)
        (ap (after_check packagename fun_path (read_function f) sep)
            (unsupported_datatypes-captured_all f.arguments)
          ∙ after_check-read_function packagename fun_path f sep
              (unsupported_datatypes f.arguments))
