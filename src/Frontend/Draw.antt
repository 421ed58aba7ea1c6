-- ===== src/Frontend/Draw.antt =====
-- What INPUTS of a harness does when it runs: each argument is drawn, in order, by the generator of
-- inst/include/RcppDeepState.h that is named after its type.
pub mod Laws
use rcpp_deep_state.Base.{
  ℕ, ℤ, Bool, true, false, Option, none, some, List, [], ◌∷◌, codes, str_eq, if◌then◌else◌,
  Computation, pure, ◌>>=◌,
}
use rcpp_deep_state.Source.{Source}
use rcpp_deep_state.Generator.Scalars.{random_int, random_double, random_float, random_char}
use rcpp_deep_state.Generator.Vectors.{random_numeric_vector, random_integer_vector}
use rcpp_deep_state.Generator.Matrices.{random_numeric_matrix, random_integer_matrix, random_mat}
use rcpp_deep_state.Generator.Texts.{random_character_vector, random_string}
use rcpp_deep_state.Frontend.Types.{Text, Argument, type_arg}

-- The generators of the header, by what they return.
pub data Kind : Type 0 where
  int double string numeric_vector integer_vector numeric_matrix integer_matrix : Kind
  character_vector mat char float : Kind

-- A generator: the T of RcppDeepState_T, and the parameters of its version with a range.
pub record Generator : Type 0 where
  pub name : Text
  pub kind : Kind
  pub parameters : Option Text

abbrev pub generator : Text → Kind → Option Text → Generator
generator n k p = record { name = n; kind = k; parameters = p }

abbrev pub header : List Generator
header =
    generator (codes "int") int (some (codes "(low,high)"))
    ∷ generator (codes "double") double (some (codes "(low,high)"))
    ∷ generator (codes "NumericVector") numeric_vector (some (codes "(size,low,high)"))
    ∷ generator (codes "IntegerVector") integer_vector (some (codes "(size,low,high)"))
    ∷ generator (codes "NumericMatrix") numeric_matrix (some (codes "(row,column,low,high)"))
    ∷ generator (codes "IntegerMatrix") integer_matrix (some (codes "(row,column,low,high)"))
    ∷ generator (codes "CharacterVector") character_vector none
    ∷ generator (codes "string") string none
    ∷ generator (codes "mat") mat none
    ∷ generator (codes "float") float (some (codes "(low,high)"))
    ∷ generator (codes "char") char none
    ∷ []

unfoldable pub find : Text → List Generator → Option Generator
find t [] = none
find t (g ∷ gs) = if str_eq t g.name then some g else find t gs

-- The values that the generators return.
pub data Value (D F : Type 0) : Type 0 where
  of_int of_char : ℤ → Value D F
  of_double : D → Value D F
  of_float : F → Value D F
  of_string : Text → Value D F
  of_doubles : List D → Value D F
  of_ints : List ℤ → Value D F
  of_double_matrix of_mat : ℤ × ℤ × List D → Value D F
  of_int_matrix : ℤ × ℤ × List ℤ → Value D F
  of_strings : List (Option Text) → Value D F

module _ (src : Source) where
  open src use {State, Double, Float}

  abbrev give :
      {A : Type 0}
      → Computation State A
      → (A → Value Double Float)
      → Computation State (Value Double Float)
  give m f = m >>= λ a. pure (f a)

  unfoldable pub draw : Kind → Computation State (Value Double Float)
  draw int = give (random_int src) of_int
  draw double = give (random_double src) of_double
  draw string = give (random_string src) of_string
  draw numeric_vector = give (random_numeric_vector src) of_doubles
  draw integer_vector = give (random_integer_vector src) of_ints
  draw numeric_matrix = give (random_numeric_matrix src) of_double_matrix
  draw integer_matrix = give (random_integer_matrix src) of_int_matrix
  draw character_vector = give (random_character_vector src) of_strings
  draw mat = give (random_mat src) of_mat
  draw char = give (random_char src) of_char
  draw float = give (random_float src) of_float

  unfoldable pub draw_all : List Kind → Computation State (List (Value Double Float))
  draw_all [] = pure []
  draw_all (k ∷ ks) = do v ← draw k; vs ← draw_all ks; pure (v ∷ vs)

-- The generators that the arguments call; a harness that calls one that the header has not does not
-- compile.
abbrev pub cons_kind : Option Generator → Option (List Kind) → Option (List Kind)
cons_kind (some g) (some ks) = some (g.kind ∷ ks)
cons_kind _ _ = none

unfoldable pub kinds : List Argument → Option (List Kind)
unfolding find
kinds [] = some []
kinds (a ∷ rows) = cons_kind (find (type_arg a.argument_type) header) (kinds rows)
