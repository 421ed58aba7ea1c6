-- ===== src/Harness/Files/Laws.antt =====
-- Which files are saved test cases, and what the input buffer holds.
use rcpp_deep_state.Base.{
  ℕ, ◌≡◌, refl, ap, ◌∙◌, ◌⊎◌, inl, inr, ◌↔◌, Bool, true, false, arith, Option, none, some, List, [],
  ◌∷◌, ◌++◌, codes, strchr, str_eq, str_eq_lem, ◌==◌, sym, Option-cases, Bool-cases, contains,
}
use rcpp_deep_state.Harness.Files.{extensions, is_extension, is_test_case_file}

-- One of the three extensions.
abbrev pub IsExtension : List ℕ → Type 0
IsExtension e = (e ≡ codes ".pass") ⊎ ((e ≡ codes ".fail") ⊎ (e ≡ codes ".crash"))

is_extension-IsExtension : (e : List ℕ) → is_extension e extensions ≡ true → IsExtension e
unfolding is_extension
is_extension-IsExtension e h = elim (Bool-cases (str_eq e (codes ".pass"))) [
  | inl p ↦ inl (str_eq_lem e (codes ".pass") p)
  | inr np ↦ elim (Bool-cases (str_eq e (codes ".fail"))) [
    | inl q ↦ inr (inl (str_eq_lem e (codes ".fail") q))
    | inr nq ↦ inr (inr (str_eq_lem e (codes ".crash") (ground arith)))
  ]
]

-- What stands before the first dot has none.
strchr-split :
    (s : List ℕ) (c : ℕ) {t : List ℕ}
    → strchr s c ≡ some t
    → (stem : List ℕ) × (contains stem c ≡ false) × (s ≡ stem ++ t)
strchr-split [] c e = cc
strchr-split (d ∷ s) c {t} e = elim (Bool-cases (d == c)) [
  | inl same ↦ ([], refl, ground arith)
  | inr other ↦
      let (stem, none_in, split) = strchr-split s c {t = t} (ground arith) in
      (d ∷ stem, ground arith, ap (λ r. d ∷ r) split)
]

strchr-append :
    (stem : List ℕ) (c : ℕ) (t : List ℕ)
    → contains stem c ≡ false
    → strchr (stem ++ (c ∷ t)) c ≡ some (c ∷ t)
strchr-append [] c t h = ground arith
strchr-append (d ∷ stem) c t h = ground (arith, strchr-append stem c t)

-- The parts of such a name.
abbrev pub IsSplit : List ℕ → Type 0
IsSplit name =
    (stem : List ℕ) × (e : List ℕ) × (contains stem b'.' ≡ false)
    × IsExtension e
    × (name ≡ stem ++ e)

of_suffix : Option (List ℕ) → Bool
of_suffix none = false
of_suffix (some suffix) = is_extension suffix extensions

is_test_case_file_lem : (name : List ℕ) → is_test_case_file name ≡ of_suffix (strchr name b'.')
unfolding is_test_case_file of_suffix
is_test_case_file_lem name = elim (strchr name b'.') [ none ↦ refl | some suffix ↦ refl ]

is_test_case_file-IsSplit : (name : List ℕ) → is_test_case_file name ≡ true → IsSplit name
unfolding of_suffix
is_test_case_file-IsSplit name h = elim (Option-cases (strchr name b'.')) [
  | inl absent ↦ ground (arith, ap of_suffix (sym absent) ∙ (sym (is_test_case_file_lem name) ∙ h))
  | inr (e, found) ↦
      let (stem, none_in, split) = strchr-split name b'.' found in
      (
        stem,
        e,
        none_in,
        is_extension-IsExtension e
            (ap of_suffix (sym found) ∙ (sym (is_test_case_file_lem name) ∙ h)),
        split,
      )
]

-- The name with the suffix `.cs`.
of_dot :
    (stem cs : List ℕ)
    → contains stem b'.' ≡ false
    → is_extension (b'.' ∷ cs) extensions ≡ true
    → is_test_case_file (stem ++ (b'.' ∷ cs)) ≡ true
unfolding of_suffix
of_dot stem cs none_in ext =
    is_test_case_file_lem (stem ++ (b'.' ∷ cs))
    ∙ (ap of_suffix (strchr-append stem b'.' cs none_in) ∙ ext)

is_test_case_file_of_split :
    (stem e : List ℕ)
    → contains stem b'.' ≡ false
    → IsExtension e
    → is_test_case_file (stem ++ e) ≡ true
unfolding is_extension
is_test_case_file_of_split stem e none_in (inl p) =
    ap (λ r. is_test_case_file (stem ++ r)) p ∙ of_dot stem (codes "pass") none_in refl
is_test_case_file_of_split stem e none_in (inr (inl p)) =
    ap (λ r. is_test_case_file (stem ++ r)) p ∙ of_dot stem (codes "fail") none_in refl
is_test_case_file_of_split stem e none_in (inr (inr p)) =
    ap (λ r. is_test_case_file (stem ++ r)) p ∙ of_dot stem (codes "crash") none_in refl

-- DeepState_IsTestCaseFile accepts exactly the names that consist of a stem without a dot and one
-- of the extensions .pass, .fail and .crash.
pub is_test_case_file_iff : (name : List ℕ) → (is_test_case_file name ≡ true) ↔ IsSplit name
is_test_case_file_iff name = (
  is_test_case_file-IsSplit name,
  λ (stem, e, none_in, ext, split).
      ap is_test_case_file split ∙ is_test_case_file_of_split stem e none_in ext,
)
