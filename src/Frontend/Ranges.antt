-- ===== src/Frontend/Ranges.antt =====
-- The search for ranges that a user has not given in a generation harness
-- (deepstate_compile_generate_fun of R/editable_fun.R).
pub mod Search
pub mod Comments
pub mod Inputs
mod Calls
pub mod Given
pub mod Fresh
pub mod Asserts
use rcpp_deep_state.Base.{
  ℕ, ◌==◌, Bool, true, false, not, ◌&&◌, Option, none, some, List, [], ◌∷◌, ◌++◌, codes,
  has_substring, if◌then◌else◌,
}
use rcpp_deep_state.Frontend.Types.{Text}

-- What follows the first `//`.
unfoldable pub after_slashes : Text → Option Text
after_slashes [] = none
after_slashes (a ∷ []) = none
after_slashes (a ∷ b ∷ s) = if a == b'/' && b == b'/' then some s else after_slashes (b ∷ s)

abbrev pub cons_to : ℕ → Option Text → Option Text
cons_to c none = if c == b'(' then some [] else none
cons_to c (some t) = some (c ∷ t)

-- What comes before the last opening parenthesis: `.*` takes as much as it can.
unfoldable pub before_paren : Text → Option Text
before_paren [] = none
before_paren (c ∷ s) = cons_to c (before_paren s)

-- `nc::capture_all_str(harness_lines,"//", fun_call=".*","\\(")` on a line.
unfoldable pub fun_call : Text → Option Text
unfolding after_slashes before_paren
fun_call line = elim (after_slashes line) [ none ↦ none | some s ↦ before_paren s ]

abbrev pub cons_call : Option Text → List Text → List Text
cons_call none cs = cs
cons_call (some c) cs = c ∷ cs

-- `range_elements$fun_call`.
unfoldable pub range_elements : List Text → List Text
unfolding fun_call
range_elements [] = []
range_elements (l ∷ ls) = cons_call (fun_call l) (range_elements ls)

-- `grep(pattern, harness_lines, value=TRUE, fixed=TRUE)[1]`.
unfoldable pub first_with : Text → List Text → Option Text
first_with pattern [] = none
first_with pattern (l ∷ ls) = if has_substring l pattern then some l else first_with pattern ls

abbrev pub missing_range : Text → List Text → Option Text
missing_range fun_range harness_lines = first_with (fun_range ++ codes "();") harness_lines

abbrev pub cons_missing : Bool → Option Text → Option (List Text) → Option (List Text)
cons_missing continue_on_missing none rest = rest
cons_missing true (some l) (some ls) = some (l ∷ ls)
cons_missing true (some l) none = none
cons_missing false (some l) rest = none

-- The loop, which gives the lines that it warns of, or stops.
unfoldable pub check_ranges : Bool → List Text → List Text → Option (List Text)
unfolding first_with
check_ranges continue_on_missing harness_lines [] = some []
check_ranges continue_on_missing harness_lines (fun_range ∷ more) =
    cons_missing continue_on_missing (missing_range fun_range harness_lines)
      (check_ranges continue_on_missing harness_lines more)

-- deepstate_compile_generate_fun up to the run.
unfoldable pub missing_ranges : Bool → List Text → Option (List Text)
unfolding check_ranges range_elements
missing_ranges continue_on_missing harness_lines =
    check_ranges continue_on_missing harness_lines (range_elements harness_lines)
