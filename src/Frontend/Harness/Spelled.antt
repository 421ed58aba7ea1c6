-- ===== src/Frontend/Harness/Spelled.antt =====
-- Which declarations of arguments deepstate_fun_create takes.
use rcpp_deep_state.Base.{
  ◌≡◌, Bool, true, false, List, [], ◌∷◌, ◌++◌, codes, contains, has_substring, is_in, if◌then◌else◌,
}
use rcpp_deep_state.Frontend.Types.{Text, Argument}
use rcpp_deep_state.Frontend.Harness.{Created, written, refused}

pub data Namespace : Type 0 where
  no_namespace rcpp std arma : Namespace

-- An argument as it is declared in C++.
pub record Declared : Type 0 where
  pub is_const : Bool
  pub namespace : Namespace
  pub datatype_name : Text
  pub variable_name : Text

abbrev pub with_namespace : Namespace → Text → Text
with_namespace no_namespace name = name
with_namespace rcpp name = codes "Rcpp::" ++ name
with_namespace std name = codes "std::" ++ name
with_namespace arma name = codes "arma::" ++ name

abbrev pub with_const : Bool → Text → Text
with_const true t = codes "const " ++ t
with_const false t = t

abbrev pub declared : Declared → Argument
declared d = record {
  argument_type = with_const d.is_const (with_namespace d.namespace d.datatype_name);
  argument_name = d.variable_name;
}

-- A name without spaces, colons and `const`.
abbrev pub IsName : Text → Type 0
IsName t =
    (contains t b' ' ≡ false)
    × (contains t b':' ≡ false)
    × (has_substring t (codes "const") ≡ false)

-- The datatypes that a harness can generate.
abbrev pub is_generated : Text → Bool
is_generated t = is_in t (
    codes "int"
    ∷ codes "double"
    ∷ codes "string"
    ∷ codes "NumericVector"
    ∷ codes "IntegerVector"
    ∷ codes "NumericMatrix"
    ∷ codes "IntegerMatrix"
    ∷ codes "CharacterVector"
    ∷ codes "mat"
    ∷ codes "char"
    ∷ codes "float"
    ∷ [])

-- The names of the other datatypes, in the order of the arguments.
abbrev pub others : List Declared → List Text
others [] = []
others (d ∷ ds) =
    let rest = others ds in if is_generated d.datatype_name then rest else d.datatype_name ∷ rest

-- A harness is written if there are no other datatypes, and otherwise they are reported.
abbrev pub IsOutcome : List Text → Created → Type 0
IsOutcome [] (written name text) = Unit
IsOutcome [] _ = ⊥
IsOutcome (t ∷ ts) c = c ≡ refused (t ∷ ts)
