-- ===== src/Frontend/TestNames/Split.antt =====
-- The name of the runner test is read back from the harness.
use mathlib.Core.List.{append_assoc, append-nil}
use rcpp_deep_state.Base.{
  ℕ, zero, suc, ◌-◌, ◌≡◌, refl, ap, sym, ◌∙◌, Bool, true, false, some, List, [], ◌∷◌, ◌++◌, All,
  codes, starts_with, has_substring, length, gsub, gsub_from, if_of_true, Bool-cases, inl, inr,
  if_of_false, arith,
}
use rcpp_deep_state.Frontend.Types.{Text}
use rcpp_deep_state.Frontend.Harness.{unittest}
use rcpp_deep_state.Frontend.TestNames.{
  is_newline, test_name, runner_test, is_separator, split_by, part, runner_harness_name, test_line,
  is_runner_line, harness_name_of,
}

module _ (is_end : ℕ → Bool) where
  -- No character of the text ends a part.
  abbrev pub IsWhole : Text → Type 0
  IsWhole = All (λ c. is_end c ≡ false)

  -- Removing characters adds none.
  gsub_from-IsWhole : (p : Text) (skip : ℕ) (s : Text) → IsWhole s → IsWhole (gsub_from p skip s)
  unfolding gsub_from
  gsub_from-IsWhole p skip [] h = tt
  gsub_from-IsWhole p (suc skip) (c ∷ s) h = gsub_from-IsWhole p skip s h.1
  gsub_from-IsWhole p zero (c ∷ s) h =
      elim (starts_with (c ∷ s) p)
        as (λ b.
          IsWhole (elim b [ true ↦ gsub_from p (length p - 1) s | false ↦ c ∷ gsub_from p 0 s ])) [
            | true ↦ gsub_from-IsWhole p (length p - 1) s h.1
            | false ↦ (h.0, gsub_from-IsWhole p 0 s h.1)
          ]

  pub unittest-IsWhole : (packagename : Text) → IsWhole packagename → IsWhole (unittest packagename)
  unfolding unittest gsub
  unittest-IsWhole packagename h = gsub_from-IsWhole (codes ".") 0 packagename h

  by_test : Text → ℕ → Text → Bool → List Text
  by_test read c s b = elim b [
    | true ↦ read ∷ split_by is_end [] s
    | false ↦ split_by is_end (read ++ (c ∷ [])) s
  ]

  pub at_end :
      (read : Text) (c : ℕ) (s : Text)
      → is_end c ≡ true
      → split_by is_end read (c ∷ s) ≡ read ∷ split_by is_end [] s
  unfolding split_by by_test
  at_end read c s e = ap (by_test read c s) e

  pub within_word :
      (read : Text) (c : ℕ) (s : Text)
      → is_end c ≡ false
      → split_by is_end read (c ∷ s) ≡ split_by is_end (read ++ (c ∷ [])) s
  unfolding split_by by_test
  within_word read c s e = ap (by_test read c s) e

  pub split_by-word :
      (read word rest : Text) (c : ℕ)
      → IsWhole word
      → is_end c ≡ true
      → split_by is_end read (word ++ (c ∷ rest)) ≡ (read ++ word) ∷ split_by is_end [] rest
  split_by-word read [] rest c h e =
      at_end read c rest e ∙ ap (λ r. r ∷ split_by is_end [] rest) (sym (append-nil read))
  split_by-word read (d ∷ word) rest c h e =
      within_word read d (word ++ (c ∷ rest)) h.0
      ∙ (split_by-word (read ++ (d ∷ [])) word rest c h.1 e
          ∙ ap (λ r. r ∷ split_by is_end [] rest) (append_assoc read (d ∷ []) word))

  -- What ends in an end is split on its own.
  pub split_by-append :
      (read s rest : Text) (c : ℕ)
      → is_end c ≡ true
      → split_by is_end read (s ++ (c ∷ rest))
        ≡ split_by is_end read (s ++ (c ∷ [])) ++ split_by is_end [] rest
  unfolding split_by
  split_by-append read [] rest c e =
      at_end read c rest e ∙ ap (λ ps. ps ++ split_by is_end [] rest) (sym (at_end read c [] e))
  split_by-append read (d ∷ s) rest c e = elim (Bool-cases (is_end d)) [
    | inl ends ↦
        at_end read d (s ++ (c ∷ rest)) ends
        ∙ (ap (λ ps. read ∷ ps) (split_by-append [] s rest c e)
            ∙ ap (λ ps. ps ++ split_by is_end [] rest) (sym (at_end read d (s ++ (c ∷ [])) ends)))
    | inr goes_on ↦
        within_word read d (s ++ (c ∷ rest)) goes_on
        ∙ (split_by-append (read ++ (d ∷ [])) s rest c e
            ∙ ap (λ ps. ps ++ split_by is_end [] rest)
                (sym (within_word read d (s ++ (c ∷ [])) goes_on)))
  ]

pub newline : is_newline b'\n' ≡ true
unfolding is_newline
newline = refl

pub newline_of : (c : ℕ) → is_newline c ≡ true → c ≡ b'\n'
unfolding is_newline
newline_of c h = ground arith

abbrev pub IsPlain : Text → Type 0
IsPlain = IsWhole is_separator

runner_parts :
    (u : Text)
    → IsPlain u
    → split_by is_separator [] (codes "TEST(" ++ (u ++ codes ", runner){"))
      ≡ codes "TEST" ∷ u ∷ [] ∷ codes "runner" ∷ codes "{" ∷ []
unfolding split_by is_separator
runner_parts u h =
    ap (λ ps. codes "TEST" ∷ ps) (split_by-word is_separator [] u (codes " runner){") b',' h refl)

pub runner_harness_name_lem :
    (packagename : Text)
    → IsPlain packagename
    → runner_harness_name (test_line packagename (codes "runner")) ≡ runner_test packagename
unfolding runner_harness_name test_line
runner_harness_name_lem packagename h =
    ap (λ ps. test_name (part ps 1) (part ps 3))
      (runner_parts (unittest packagename) (unittest-IsWhole is_separator packagename h))

has_runner : (u : Text) → has_substring (u ++ codes ", runner){") (codes "runner") ≡ true
has_runner [] = refl
has_runner (c ∷ u) = ground (arith, has_runner u)

pub test_line-is_runner_line :
    (packagename : Text) → is_runner_line (test_line packagename (codes "runner")) ≡ true
unfolding is_runner_line test_line
test_line-is_runner_line packagename = has_runner (unittest packagename)

pub after_others :
    (before : List Text) (l : Text) (after : List Text)
    → All (λ b. is_runner_line b ≡ false) before
    → is_runner_line l ≡ true
    → harness_name_of (before ++ (l ∷ after)) ≡ some (runner_harness_name l)
unfolding harness_name_of
after_others [] l after h e =
    if_of_true (is_runner_line l) (some (runner_harness_name l)) (harness_name_of after) e
after_others (b ∷ before) l after h e =
    if_of_false (is_runner_line b) (some (runner_harness_name b))
      (harness_name_of (before ++ (l ∷ after))) h.0
    ∙ after_others before l after h.1 e

-- From the lines of a harness deepstate_fuzz_fun_analyze reads back the name of the runner test,
-- for a package name without separators and where no line before it looks like the runner's.
pub harness_name_of_lem :
    (packagename : Text) (before after : List Text)
    → IsPlain packagename
    → All (λ l. is_runner_line l ≡ false) before
    → harness_name_of (before ++ (test_line packagename (codes "runner") ∷ after))
      ≡ some (runner_test packagename)
harness_name_of_lem packagename before after plain none_before =
    after_others before (test_line packagename (codes "runner")) after none_before
      (test_line-is_runner_line packagename)
    ∙ ap (λ t. some t) (runner_harness_name_lem packagename plain)
