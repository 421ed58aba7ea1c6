-- ===== src/Frontend/Ranges/Asserts.antt =====
-- The search for assertions in a checks harness (deepstate_compile_checks_fun of R/editable_fun.R, up
-- to the run).
use mathlib.Core.List.{append_assoc}
use mathlib.Core.Bool.{true≢false}
use rcpp_deep_state.Base.{
  ◌≡◌, ◌↔◌, ◌⊎◌, refl, ap, sym, ◌∙◌, Bool, true, false, ◌||◌, Option, none, some, List, [], ◌∷◌,
  ◌++◌, codes, has_substring, has_substring-left, has_substring-right, Bool-cases, inl, inr,
  if◌then◌else◌, arith,
}
use rcpp_deep_state.Frontend.Types.{Text}
use rcpp_deep_state.Frontend.TestNames.{is_newline, split_by, read_lines}
use rcpp_deep_state.Frontend.TestNames.Split.{at_end, within_word}
use rcpp_deep_state.Frontend.Ranges.Search.{has_line, has_line-split_by}

-- `grep("ASSERT_", harness_lines, value=TRUE, fixed=TRUE)`.
unfoldable pub assert_lines : List Text → List Text
assert_lines [] = []
assert_lines (l ∷ ls) =
    let rest = assert_lines ls in if has_substring l (codes "ASSERT_") then l ∷ rest else rest

abbrev pub no_lines : List Text → Bool
no_lines [] = true
no_lines (l ∷ ls) = false

-- Whether there is a warning, or a stop.
unfoldable pub missing_asserts : Bool → List Text → Option Bool
unfolding assert_lines
missing_asserts continue_on_missing harness_lines =
    if no_lines (assert_lines harness_lines)
    then if continue_on_missing then some true else none
    else some false

no_lines-has_line :
    (ls : List Text) → no_lines (assert_lines ls) ≡ true → has_line (codes "ASSERT_") ls ≡ false
unfolding assert_lines
no_lines-has_line [] h = refl
no_lines-has_line (l ∷ ls) h = ground (arith, no_lines-has_line ls)

some_lines-has_line :
    (ls : List Text) → no_lines (assert_lines ls) ≡ false → has_line (codes "ASSERT_") ls ≡ true
unfolding assert_lines
some_lines-has_line [] h = cc
some_lines-has_line (l ∷ ls) h = ground (arith, some_lines-has_line ls)

either : (a b : Bool) → (a || b) ≡ true → (a ≡ true) ⊎ (b ≡ true)
either true b h = inl refl
either false b h = inr h

-- What is in a line is in the file.
split_by-has_line :
    (p read s : Text)
    → has_line p (split_by is_newline read s) ≡ true
    → has_substring (read ++ s) p ≡ true
unfolding split_by
split_by-has_line p [] [] h = cc
split_by-has_line p (r ∷ read) [] h = elim (either (has_substring (r ∷ read) p) false h) [
  | inl here ↦ has_substring-left (r ∷ read) [] p here
  | inr no_line ↦ cc
]
split_by-has_line p read (d ∷ s) h = elim (Bool-cases (is_newline d)) [
  | inl ends ↦
      let parts = sym (ap (has_line p) (at_end is_newline read d s ends)) ∙ h in
      elim (either (has_substring read p) (has_line p (split_by is_newline [] s)) parts) [
        | inl here ↦ has_substring-left read (d ∷ s) p here
        | inr later ↦
            has_substring-right read (d ∷ s) p
              (has_substring-right (d ∷ []) s p (split_by-has_line p [] s later))
      ]
  | inr goes_on ↦
      ap (λ t. has_substring t p) (sym (append_assoc read (d ∷ []) s))
      ∙ split_by-has_line p (read ++ (d ∷ [])) s
          (sym (ap (has_line p) (within_word is_newline read d s goes_on)) ∙ h)
]

no_lines_iff :
    (text : Text)
    → (no_lines (assert_lines (read_lines text)) ≡ true)
      ↔ (has_substring text (codes "ASSERT_") ≡ false)
no_lines_iff text =
    let ls : List Text = read_lines text in
    (
      λ h. elim (Bool-cases (has_substring text (codes "ASSERT_"))) [
        | inl found ↦ absurd (
            true≢false (
              sym (has_line-split_by b'A' (codes "SSERT_") [] text refl found)
              ∙ no_lines-has_line ls h))
        | inr absent ↦ absent
      ],
      λ absent. elim (Bool-cases (no_lines (assert_lines ls))) [
        | inl none_there ↦ none_there
        | inr there ↦ absurd (
            true≢false (
              sym (split_by-has_line (codes "ASSERT_") [] text (some_lines-has_line ls there))
              ∙ absent))
      ],
    )

stops_iff : (b : Bool) → ((if b then none else some false) ≡ none) ↔ (b ≡ true)
stops_iff true = (λ h. refl, λ h. refl)
stops_iff false = (λ h. cc, λ h. cc)

-- Without continue_on_missing deepstate_compile_checks_fun stops for want of assertions exactly
-- if the text of the checks harness does not contain ASSERT_.
pub missing_asserts_iff :
    (text : Text)
    → (missing_asserts false (read_lines text) ≡ none)
      ↔ (has_substring text (codes "ASSERT_") ≡ false)
unfolding missing_asserts
missing_asserts_iff text =
    let stops = stops_iff (no_lines (assert_lines (read_lines text))) in
    let absent = no_lines_iff text in (λ h. absent.0 (stops.0 h), λ h. stops.1 (absent.1 h))
