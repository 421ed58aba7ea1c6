-- ===== src/Frontend/Exports.antt =====
-- Reading the arguments of a function from its wrapper in RcppExports.cpp
-- (deepstate_get_function_body of R/package_details.R): nc::capture_all_str with the expression
-- `input_parameter< (.*?)>::type([^(]+)`.
pub mod Captures
pub mod Arguments
pub mod Alike
pub mod Laws
use rcpp_deep_state.Base.{
  ℕ, zero, suc, ◌+◌, ◌-◌, Bool, true, false, not, ◌==◌, ◌&&◌, Option, none, some, List, [], ◌∷◌,
  ◌++◌, codes, length, starts_with,
}
use rcpp_deep_state.Frontend.Types.{Text, Argument}
use rcpp_deep_state.Frontend.TestNames.{is_newline}

abbrev pub drop : ℕ → Text → Text
drop zero s = s
drop (suc n) [] = []
drop (suc n) (c ∷ s) = drop n s

abbrev pub input_parameter : Text
input_parameter = codes "input_parameter< "

abbrev pub end_of_type : Text
end_of_type = codes ">::type"

-- `[^(]+` matches here.
abbrev pub has_name : Text → Bool
has_name [] = false
has_name (c ∷ s) = not (c == b'(')

-- `>::type[^(]+` matches here.
abbrev pub closes : Text → Bool
closes s = starts_with s end_of_type && has_name (drop 7 s)

-- `.*?` before that: as little as can be, and no line end.
unfoldable pub argument_type_at : Text → Option Text
argument_type_at [] = none
argument_type_at (c ∷ s) = elim (closes (c ∷ s)) [
  | true ↦ some []
  | false ↦ elim (is_newline c) [
    | true ↦ none
    | false ↦ elim (argument_type_at s) [ none ↦ none | some t ↦ some (c ∷ t) ]
  ]
]

unfoldable pub until_paren : Text → Text
until_paren [] = []
until_paren (c ∷ s) = elim (c == b'(') [ true ↦ [] | false ↦ c ∷ until_paren s ]

-- A match, and how many characters it has.
abbrev pub capture : Text → Text → Argument × ℕ
capture t rest =
    let name : Text = until_paren (drop (length t + 7) rest) in
    (record { argument_type = t; argument_name = name }, length t + (7 + length name))

-- What matches after `input_parameter< `.
unfoldable pub match_after : Text → Option (Argument × ℕ)
unfolding argument_type_at until_paren
match_after rest = elim (argument_type_at rest) [ none ↦ none | some t ↦ some (capture t rest) ]

-- The scan, with the characters of a match that are left.
unfoldable pub captures : ℕ → Text → List Argument
captures skip [] = []
captures (suc skip) (c ∷ s) = captures skip s
captures zero (c ∷ s) = elim (starts_with (c ∷ s) input_parameter) [
  | false ↦ captures 0 s
  | true ↦ elim (match_after (drop 16 s)) [
    | none ↦ captures 0 s
    | some m ↦ m.0 ∷ captures (16 + m.1) s
  ]
]

-- The rows of `functions.rows`, from the text between BEGIN_RCPP and END_RCPP.
unfoldable pub get_function_body : Text → List Argument
get_function_body code = captures 0 code
