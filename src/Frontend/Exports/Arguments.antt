-- ===== src/Frontend/Exports/Arguments.antt =====
-- The arguments that are read from a wrapper in RcppExports.cpp.
use mathlib.Core.List.{append_assoc}
use rcpp_deep_state.Base.{
  ◌≡◌, refl, ap, sym, ◌∙◌, false, List, [], ◌∷◌, ◌++◌, All, codes, contains, starts_with,
  has_substring, has_substring-contains_not, contains-append, or_false,
}
use rcpp_deep_state.Frontend.Types.{Text, Argument}
use rcpp_deep_state.Frontend.Exports.{input_parameter, end_of_type, captures, get_function_body}
use rcpp_deep_state.Frontend.Exports.Captures.{
  captured, not_found, captures_absent, captures-parameter,
}

-- A line of the wrapper that converts an argument, and what comes after it.
abbrev parameter_line : Argument → Text → Text
parameter_line a rest =
    codes "    Rcpp::traits::"
    ++ (input_parameter
        ++ (a.argument_type
            ++ (codes " >::type "
                ++ (a.argument_name
                    ++ (codes "(" ++ (a.argument_name ++ (codes "SEXP);" ++ (b'\n' ∷ rest))))))))

abbrev parameter_lines : List Argument → Text → Text
parameter_lines [] after = after
parameter_lines (a ∷ more) after = parameter_line a (parameter_lines more after)

-- The text between BEGIN_RCPP and END_RCPP.
abbrev pub wrapper : Text → List Argument → Text → Text
wrapper before arguments after = before ++ (b'\n' ∷ parameter_lines arguments after)

-- A type without line ends and `>::type`, and a name without spaces and parentheses.
abbrev pub IsDeclared : Argument → Type 0
IsDeclared a =
    (has_substring a.argument_type end_of_type ≡ false)
    × (contains a.argument_type b'\n' ≡ false)
    × (contains a.argument_name b'(' ≡ false)
    × (contains a.argument_name b' ' ≡ false)

abbrev pub captured_all : List Argument → List Argument
captured_all [] = []
captured_all (a ∷ more) = captured a.argument_type a.argument_name ∷ captured_all more

captures_none : (s : Text) → has_substring s input_parameter ≡ false → captures 0 s ≡ []
unfolding captures
captures_none [] h = refl
captures_none (c ∷ s) h =
    let (start, later) =
      or_false (starts_with (c ∷ s) input_parameter) (has_substring s input_parameter) h in
    not_found c s start ∙ captures_none s later

captures-parameter_lines :
    (arguments : List Argument) (after : Text)
    → All IsDeclared arguments
    → has_substring after input_parameter ≡ false
    → captures 0 (parameter_lines arguments after) ≡ captured_all arguments
captures-parameter_lines [] after h k = captures_none after k
captures-parameter_lines (a ∷ more) after h k =
    let t : Text = a.argument_type in
    let x : Text = a.argument_name in
    let (no_end, one_line, no_paren, no_space) = h.0 in
    let later : Text = parameter_lines more after in
    let name_after : Text = x ++ (codes "SEXP);" ++ (b'\n' ∷ later)) in
    captures_absent (codes "    Rcpp::traits:")
      (input_parameter ++ (t ++ (codes " >::type " ++ (x ++ (b'(' ∷ name_after))))) b':' refl refl
    ∙ (captures-parameter t x name_after no_end one_line no_paren
        ∙ ap (λ args. captured t x ∷ args)
            (ap (captures 0) (sym (append_assoc x (codes "SEXP);") (b'\n' ∷ later)))
              ∙ (captures_absent (x ++ codes "SEXP);") later b'\n' refl (
                    has_substring-contains_not (x ++ codes "SEXP);") input_parameter b' '
                      (contains-append x (codes "SEXP);") b' ' no_space refl) refl)
                  ∙ captures-parameter_lines more after h.1 k)))

-- From the wrapper of a function in RcppExports.cpp deepstate_get_function_body reads the
-- declared arguments in order, the type with a space after it and the name with one before it;
-- the types have no `>::type` and no line end, the names no space and no parenthesis, and the
-- text around the arguments has no `input_parameter< `.
pub get_function_body-wrapper :
    (before : Text) (arguments : List Argument) (after : Text)
    → has_substring before input_parameter ≡ false
    → All IsDeclared arguments
    → has_substring after input_parameter ≡ false
    → get_function_body (wrapper before arguments after) ≡ captured_all arguments
unfolding get_function_body
get_function_body-wrapper before arguments after h declared k =
    captures_absent before (parameter_lines arguments after) b'\n' refl h
    ∙ captures-parameter_lines arguments after declared k
