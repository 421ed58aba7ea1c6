-- ===== src/Frontend/SavedInputs.antt =====
-- Reading back the arguments that a run of a harness has saved (the loop over inputs.path in
-- R/analyze_binary_one.R and in R/analyze_binary.R). What qread and scan find in a file are
-- parameters.
pub mod Names
pub mod Laws
pub mod Rows
use rcpp_deep_state.Base.{
  ℕ, zero, suc, Bool, true, false, ◌||◌, List, [], ◌∷◌, ◌++◌, codes, contains, str_eq, starts_with,
  has_substring, if◌then◌else◌,
}
use rcpp_deep_state.Frontend.Types.{Text, Argument, type_arg}
use rcpp_deep_state.Frontend.Harness.{arg_name}

-- `basename`.
unfoldable pub basename : Text → Text
basename [] = []
basename (c ∷ s) = if contains (c ∷ s) b'/' then basename s else c ∷ s

-- `gsub(".qs", "", s)`, where the dot stands for any character; with what is left of a match.
unfoldable pub remove_qs : ℕ → Text → Text
remove_qs skip [] = []
remove_qs (suc skip) (c ∷ s) = remove_qs skip s
remove_qs zero (c ∷ s) = elim (starts_with s (codes "qs")) [
  | true ↦ remove_qs 2 s
  | false ↦ c ∷ remove_qs 0 s
]

-- `grepl(".qs", path, fixed = TRUE)`.
abbrev pub is_qs : Text → Bool
is_qs path = has_substring path (codes ".qs")

unfoldable pub input_name : Text → Text
unfolding basename remove_qs
input_name path = if is_qs path then remove_qs 0 (basename path) else basename path

-- The file under inputs that the harness writes for an argument.
abbrev pub saved_file : Argument → Text
saved_file a =
    if str_eq (type_arg a.argument_type) (codes "mat")
    then arg_name a
    else arg_name a ++ codes ".qs"

-- `inputs_list`, by the names.
abbrev pub Inputs : Type 0 → Type 0
Inputs Value = List (Text × Value)

module _ {Value : Type 0} where
  -- `inputs_list[[name]] <- value`.
  unfoldable pub assign : Text → Value → Inputs Value → Inputs Value
  assign name value [] = (name, value) ∷ []
  assign name value (entry ∷ entries) = elim (str_eq name entry.0) [
    | true ↦ (entry.0, value) ∷ entries
    | false ↦ entry ∷ assign name value entries
  ]

  abbrev pub value_of : (Text → Value) → (Text → Value) → Text → Value
  value_of qread scan path = if is_qs path then qread path else scan path

  -- The loop, with `inputs_list`.
  unfoldable pub read_inputs :
      (Text → Value) → (Text → Value) → Inputs Value → List Text → Inputs Value
  unfolding assign input_name
  read_inputs qread scan inputs_list [] = inputs_list
  read_inputs qread scan inputs_list (path ∷ paths) =
      read_inputs qread scan (assign (input_name path) (value_of qread scan path) inputs_list) paths
