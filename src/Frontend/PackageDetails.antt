-- ===== src/Frontend/PackageDetails.antt =====
-- The functions in RcppExports.cpp (deepstate_get_package_details of R/package_details.R). The
-- regular expression goes line by line: a comment, the prototype, the line with SEXP, BEGIN_RCPP,
-- the code, and END_RCPP. Blank lines at the ends of the code stay in it here.
pub mod Prototype
pub mod Scan
pub mod Laws
use rcpp_deep_state.Base.{
  ℕ, zero, suc, ◌+◌, Bool, true, false, ◌==◌, ◌&&◌, ◌||◌, Option, none, some, List, [], ◌∷◌, ◌++◌,
  codes, str_eq, starts_with, if◌then◌else◌,
}
use rcpp_deep_state.Frontend.Types.{Text, Argument}
use rcpp_deep_state.Frontend.Harness.{Function}
use rcpp_deep_state.Frontend.Exports.{drop, until_paren, get_function_body}

-- `\\s` within a line.
abbrev pub is_space : ℕ → Bool
is_space c = c == b' ' || c == b'\t'

-- A line after `\\s*`.
unfoldable pub trim : Text → Text
trim [] = []
trim (c ∷ s) = if is_space c then trim s else c ∷ s

abbrev pub is_blank : Text → Bool
is_blank [] = true
is_blank (c ∷ s) = is_space c && is_blank s

abbrev pub is_comment : Text → Bool
is_comment line = starts_with (trim line) (codes "// ")

abbrev pub is_begin : Text → Bool
is_begin line =
    let t : Text = trim line in starts_with t (codes "BEGIN_RCPP") && is_blank (drop 10 t)

abbrev pub is_end : Text → Bool
is_end line = starts_with (trim line) (codes "END_RCPP")

-- `arguments=".*", "\\);"` up to the end of the line.
unfoldable pub ends_call : Text → Bool
ends_call [] = false
ends_call (c ∷ s) = str_eq (c ∷ s) (codes ");") || ends_call s

-- What follows the first opening parenthesis ends so.
unfoldable pub has_arguments : Text → Bool
unfolding ends_call
has_arguments [] = false
has_arguments (c ∷ s) = if c == b'(' then ends_call s else has_arguments s

-- `funName=".*?", "\\("` and the arguments.
unfoldable pub call_name : Text → Option Text
unfolding has_arguments until_paren
call_name s = if has_arguments s then some (until_paren s) else none

-- `returnType=".*", " "` takes as much as it can before that.
unfoldable pub prototype_name : Text → Option Text
prototype_name [] = none
prototype_name (c ∷ s) = elim (prototype_name s) [
  | some name ↦ some name
  | none ↦ if c == b' ' then call_name s else none
]

-- How many lines there are up to BEGIN_RCPP.
unfoldable pub begin_at : List Text → Option ℕ
begin_at [] = none
begin_at (l ∷ ls) =
    let rest = begin_at ls in
    if is_begin l
    then some 1
    else if is_blank l
    then elim rest [ none ↦ none | some n ↦ some (suc n) ]
    else none

-- `code`, with the number of lines up to END_RCPP.
unfoldable pub code_at : List Text → Option (List Text × ℕ)
code_at [] = none
code_at (l ∷ ls) =
    let rest = code_at ls in
    if is_end l then some ([], 1) else elim rest [ none ↦ none | some r ↦ some (l ∷ r.0, suc r.1) ]

-- A row of what is captured.
pub record Details : Type 0 where
  pub fun_name : Text
  pub prototype : Text
  pub code : List Text

abbrev pub drop_lines : ℕ → List Text → List Text
drop_lines zero ls = ls
drop_lines (suc n) [] = []
drop_lines (suc n) (l ∷ ls) = drop_lines n ls

abbrev pub with_code : Text → Text → ℕ → Option (List Text × ℕ) → Option (Details × ℕ)
with_code name prototype lines none = none
with_code name prototype lines (some r) =
    some (record { fun_name = name; prototype = prototype; code = r.0 }, lines + r.1)

-- The lines after SEXP.
abbrev pub body_at : Text → Text → List Text → Option (Details × ℕ)
body_at name prototype ls = elim (begin_at ls) [
  | none ↦ none
  | some n ↦ with_code name prototype n (code_at (drop_lines n ls))
]

-- A match that begins with the comment; the number is that of the lines after the line with SEXP.
unfoldable pub details_at : List Text → Option (Details × ℕ)
unfolding prototype_name begin_at code_at trim
details_at (l ∷ p ∷ sexp ∷ ls) = elim (is_comment l) [
  | false ↦ none
  | true ↦ elim (prototype_name p) [ none ↦ none | some name ↦ body_at name p ls ]
]
details_at _ = none

-- The scan, with the lines of a match that are left.
unfoldable pub scan_lines : ℕ → List Text → List Details
unfolding details_at
scan_lines skip [] = []
scan_lines (suc skip) (l ∷ ls) = scan_lines skip ls
scan_lines zero (l ∷ ls) = elim (details_at (l ∷ ls)) [
  | none ↦ scan_lines 0 ls
  | some m ↦ m.0 ∷ scan_lines (2 + m.1) ls
]

-- A match begins with the end of a line, so not at the first one.
unfoldable pub get_package_details : List Text → List Details
unfolding scan_lines
get_package_details [] = []
get_package_details (l ∷ ls) = scan_lines 0 ls

abbrev pub code_text : List Text → Text
code_text [] = []
code_text (l ∷ ls) = l ++ (b'\n' ∷ code_text ls)

-- The rows of deepstate_get_function_body by their functions, with the prototypes; a function without
-- arguments has no row.
abbrev pub cons_function : Details → List Argument → List Function → List Function
cons_function d [] fs = fs
cons_function d (a ∷ more) fs =
    record { fun_name = d.fun_name; prototype = d.prototype; arguments = a ∷ more } ∷ fs

unfoldable pub functions_of : List Details → List Function
functions_of [] = []
functions_of (d ∷ ds) = cons_function d (get_function_body (code_text d.code)) (functions_of ds)
