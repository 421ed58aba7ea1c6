-- ===== src/Frontend/Types.antt =====
-- The datatypes that a harness can generate, and the reading of a C++ argument type
-- (R/fun_harness_create.R).
pub mod Laws
use rcpp_deep_state.Base.{
  Bool, true, false, not, Option, none, some, List, [], ◌∷◌, codes, str_eq, gsub, ℕ, ◌||◌,
  if◌then◌else◌,
}

abbrev pub Text : Type 0
Text = List ℕ

-- A row of `types_table`; `NA` is `none`.
pub record Row : Type 0 where
  pub ctype : Text
  pub rtype : Option Text
  pub args : Option Text

abbrev pub datatype : Text → Option Text → Option Text → Row
datatype c r a = record { ctype = c; rtype = r; args = a }

abbrev pub types_table : List Row
types_table =
    datatype (codes "int") (some (codes "IntegerVector")) (some (codes "(low,high)"))
    ∷ datatype (codes "double") (some (codes "NumericVector")) (some (codes "(low,high)"))
    ∷ datatype (codes "string") (some (codes "CharacterVector")) none
    ∷ datatype (codes "NumericVector") none (some (codes "(size,low,high)"))
    ∷ datatype (codes "IntegerVector") none (some (codes "(size,low,high)"))
    ∷ datatype (codes "NumericMatrix") none (some (codes "(row,column,low,high)"))
    ∷ datatype (codes "IntegerMatrix") none (some (codes "(row,column,low,high)"))
    ∷ datatype (codes "CharacterVector") none none
    ∷ datatype (codes "mat") none none
    ∷ datatype (codes "char") (some (codes "CharacterVector")) none
    ∷ datatype (codes "float") (some (codes "NumericVector")) (some (codes "(low,high)"))
    ∷ []

-- `types_table[type]`, by the key `ctype`.
unfoldable pub find_row : Text → List Row → Option Row
find_row t [] = none
find_row t (r ∷ rows) = if str_eq t r.ctype then some r else find_row t rows

unfoldable pub rtype_of : Text → Option Text
unfolding find_row
rtype_of t = elim (find_row t types_table) [ none ↦ none | some r ↦ r.rtype ]

unfoldable pub args_of : Text → Option Text
unfolding find_row
args_of t = elim (find_row t types_table) [ none ↦ none | some r ↦ r.args ]

-- `arg.type`: `Rcpp::` and the spaces are removed.
unfoldable pub arg_type : Text → Text
unfolding gsub
arg_type t = gsub (codes " ") (gsub (codes "Rcpp::") t)

-- `type.arg`: and `const`, and the name spaces.
unfoldable pub type_arg : Text → Text
unfolding arg_type
type_arg t =
    gsub (codes "std::")
      (gsub (codes "arma::") (gsub (codes "Rcpp::") (gsub (codes "const") (arg_type t))))

-- `params %in% types_table$ctype`.
unfoldable pub is_allowed : Text → List Row → Bool
is_allowed t [] = false
is_allowed t (r ∷ rows) = str_eq t r.ctype || is_allowed t rows

-- An argument as deepstate_get_function_body lists it.
pub record Argument : Type 0 where
  pub argument_type : Text
  pub argument_name : Text

-- `params[!matched]`.
unfoldable pub unsupported_datatypes : List Argument → List Text
unfolding is_allowed type_arg
unsupported_datatypes [] = []
unsupported_datatypes (a ∷ more) =
    let t = type_arg a.argument_type in
    let rest = unsupported_datatypes more in
    if not (is_allowed t types_table) then t ∷ rest else rest
