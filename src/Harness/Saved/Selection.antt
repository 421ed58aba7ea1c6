-- ===== src/Harness/Saved/Selection.antt =====
-- The loop that looks for the test to run.
use rcpp_deep_state.Base.{
  ℕ, ◌≡◌, ◌≢◌, ap, sym, ◌∙◌, ◌↔◌, Bool, true, false, some, List, [], ◌∷◌, ◌++◌, All, str_eq,
  Bool-cases, inl, inr, if_of_true, if_of_false, arith,
}
use rcpp_deep_state.Harness.Types.{TestInfo, Flags}
use rcpp_deep_state.Base.{str_eq_lem, str_eq_refl}
use rcpp_deep_state.Harness.Saved.{select}

-- The first test of that name.
abbrev pub IsFirst : List ℕ → List TestInfo → TestInfo → Type 0
IsFirst name tests test =
    (before : List TestInfo) × (after : List TestInfo) × (tests ≡ before ++ (test ∷ after))
    × (test.test_name ≡ name)
    × All (λ t. t.test_name ≢ name) before

some_injective : {t u : TestInfo} → some t ≡ some u → t ≡ u
some_injective e = cc

module _ (f : Flags) (t : TestInfo) (tests : List TestInfo)
    (named : f.has_input_which_test ≡ true) where
  select_here : str_eq f.input_which_test t.test_name ≡ true → select f (t ∷ tests) ≡ some t
  unfolding select
  select_here same =
      if_of_true f.has_input_which_test _ (some t) named
      ∙ if_of_true (str_eq f.input_which_test t.test_name) (some t) (select f tests) same

  select_later :
      str_eq f.input_which_test t.test_name ≡ false → select f (t ∷ tests) ≡ select f tests
  unfolding select
  select_later other =
      if_of_true f.has_input_which_test _ (some t) named
      ∙ if_of_false (str_eq f.input_which_test t.test_name) (some t) (select f tests) other

str_eq_of_eq : {s t : List ℕ} → s ≡ t → str_eq t s ≡ true
str_eq_of_eq {t} e = ap (λ r. str_eq t r) e ∙ str_eq_refl t

not_both : {b : Bool} → b ≡ true → b ≡ false → ⊥
not_both p q = ground arith

select_found :
    (f : Flags) (tests : List TestInfo) {test : TestInfo}
    → f.has_input_which_test ≡ true
    → select f tests ≡ some test
    → IsFirst f.input_which_test tests test
unfolding select
select_found f [] named e = cc
select_found f (t ∷ tests) {test} named e =
    elim (Bool-cases (str_eq f.input_which_test t.test_name)) [
      | inl same ↦
          let it = some_injective (sym (select_here f t tests named same) ∙ e) in
          (
            [],
            tests,
            ap (λ r. r ∷ tests) it,
            ap (λ r. r.test_name) (sym it) ∙ sym (str_eq_lem f.input_which_test t.test_name same),
            tt,
          )
      | inr other ↦
          let (before, after, split, name, none_before) =
            select_found f tests {test = test} named
              (sym (select_later f t tests named other) ∙ e) in
          (
            t ∷ before,
            after,
            ap (λ r. t ∷ r) split,
            name,
            ((λ p. not_both (str_eq_of_eq p) other), none_before),
          )
    ]

select_first :
    (f : Flags) (before after : List TestInfo) {test : TestInfo}
    → f.has_input_which_test ≡ true
    → test.test_name ≡ f.input_which_test
    → All (λ t. t.test_name ≢ f.input_which_test) before
    → select f (before ++ (test ∷ after)) ≡ some test
select_first f [] after {test} named name none_before =
    select_here f test after named (str_eq_of_eq name)
select_first f (t ∷ before) after {test} named name none_before =
    elim (Bool-cases (str_eq f.input_which_test t.test_name)) [
      | inl same ↦ absurd (none_before.0 (sym (str_eq_lem f.input_which_test t.test_name same)))
      | inr other ↦
          select_later f t (before ++ (test ∷ after)) named other
          ∙ select_first f before after {test = test} named name none_before.1
    ]

-- With --input_which_test, the loop over the tests stops at a test exactly if that is the first
-- one of the name that is asked for.
pub select_iff :
    (f : Flags) (tests : List TestInfo) (test : TestInfo)
    → f.has_input_which_test ≡ true
    → (select f tests ≡ some test) ↔ IsFirst f.input_which_test tests test
select_iff f tests test named = (
  select_found f tests {test = test} named,
  λ (before, after, split, name, none_before).
      ap (select f) split ∙ select_first f before after {test = test} named name none_before,
)
