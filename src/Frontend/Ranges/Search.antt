-- ===== src/Frontend/Ranges/Search.antt =====
-- Where the search finds something.
use mathlib.Core.List.{append_assoc, append-nil}
use rcpp_deep_state.Base.{
  or_right, ℕ, ◌≡◌, ◌≢◌, refl, ap, sym, ◌∙◌, Bool, true, false, ◌||◌, Option, none, some, List, [],
  ◌∷◌, ◌++◌, codes, has_substring, contains, has_substring-split, Bool-cases, inl, inr, arith,
}
use rcpp_deep_state.Frontend.Types.{Text}
use rcpp_deep_state.Frontend.TestNames.{is_newline, split_by}
use rcpp_deep_state.Frontend.TestNames.Split.{at_end, within_word, newline_of}
use rcpp_deep_state.Frontend.Ranges.{
  fun_call, cons_call, range_elements, first_with, missing_range, cons_missing, check_ranges,
  missing_ranges,
}

abbrev pub has_line : Text → List Text → Bool
has_line p [] = false
has_line p (l ∷ ls) = has_substring l p || has_line p ls

pub first_with-has_line :
    (p : Text) (ls : List Text) → has_line p ls ≡ true → first_with p ls ≢ none
unfolding first_with
first_with-has_line p [] h = cc
first_with-has_line p (l ∷ ls) h = ground (arith, first_with-has_line p ls)

pub or_left : (a b : Bool) → a ≡ true → (a || b) ≡ true
or_left a b h = ground arith

missing_stops :
    (o : Option Text) (rest : Option (List Text)) → o ≢ none → cons_missing false o rest ≡ none
missing_stops none rest h = absurd (h refl)
missing_stops (some l) rest h = refl

rest_stops :
    (o : Option Text) (rest : Option (List Text)) → rest ≡ none → cons_missing false o rest ≡ none
rest_stops none rest h = h
rest_stops (some l) rest h = refl

cons_call-append :
    (o : Option Text) (cs ds : List Text) → cons_call o (cs ++ ds) ≡ cons_call o cs ++ ds
cons_call-append none cs ds = refl
cons_call-append (some c) cs ds = refl

-- A text without line ends that is in a file is in one of its lines.
pub has_line-split_by :
    (c : ℕ) (p read s : Text)
    → contains (c ∷ p) b'\n' ≡ false
    → has_substring (read ++ s) (c ∷ p) ≡ true
    → has_line (c ∷ p) (split_by is_newline read s) ≡ true
unfolding split_by
has_line-split_by c p [] [] h e = cc
has_line-split_by c p (r ∷ read) [] h e =
    or_left (has_substring (r ∷ read) (c ∷ p)) false
      (ap (λ t. has_substring t (c ∷ p)) (sym (append-nil (r ∷ read))) ∙ e)
has_line-split_by c p read (d ∷ s) h e = elim (Bool-cases (is_newline d)) [
  | inl ends ↦
      let split =
        has_substring-split read s p c d (ap (contains (c ∷ p)) (newline_of d ends) ∙ h) e in
      ap (has_line (c ∷ p)) (at_end is_newline read d s ends) ∙ elim split [
        | inl before ↦
            or_left (has_substring read (c ∷ p)) (has_line (c ∷ p) (split_by is_newline [] s))
              before
        | inr after ↦
            or_right (has_substring read (c ∷ p)) (has_line (c ∷ p) (split_by is_newline [] s))
              (has_line-split_by c p [] s h after)
      ]
  | inr goes_on ↦
      ap (has_line (c ∷ p)) (within_word is_newline read d s goes_on)
      ∙ has_line-split_by c p (read ++ (d ∷ [])) s h
          (ap (λ t. has_substring t (c ∷ p)) (append_assoc read (d ∷ []) s) ∙ e)
]

-- A missing range stops the check.
check_ranges-stops :
    (ls before after : List Text) (c : Text)
    → first_with (c ++ codes "();") ls ≢ none
    → check_ranges false ls (before ++ (c ∷ after)) ≡ none
unfolding check_ranges
check_ranges-stops ls [] after c h =
    missing_stops (missing_range c ls) (check_ranges false ls after) h
check_ranges-stops ls (b ∷ before) after c h =
    rest_stops (missing_range b ls) (check_ranges false ls (before ++ (c ∷ after)))
      (check_ranges-stops ls before after c h)

pub range_elements-append :
    (ls ms : List Text) → range_elements (ls ++ ms) ≡ range_elements ls ++ range_elements ms
unfolding range_elements
range_elements-append [] ms = refl
range_elements-append (l ∷ ls) ms =
    ap (cons_call (fun_call l)) (range_elements-append ls ms)
    ∙ cons_call-append (fun_call l) (range_elements ls) (range_elements ms)

-- A file that has a comment on a range, and the call without one, is not run.
pub missing_ranges-stops :
    (lines before after : List Text) (line c : Text)
    → lines ≡ before ++ (line ∷ after)
    → fun_call line ≡ some c
    → first_with (c ++ codes "();") lines ≢ none
    → missing_ranges false lines ≡ none
unfolding missing_ranges range_elements
missing_ranges-stops lines before after line c here call found =
    ap (check_ranges false lines) (
      ap range_elements here
      ∙ (range_elements-append before (line ∷ after)
          ∙ ap (λ o. range_elements before ++ cons_call o (range_elements after)) call))
    ∙ check_ranges-stops lines (range_elements before) (range_elements after) c found
