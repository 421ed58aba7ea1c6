-- ===== src/Frontend/SavedInputs/Names.antt =====
-- The name and the value that are read from the file of an argument.
use mathlib.Core.Bool.{true≢false}
use rcpp_deep_state.Base.{
  contains-append, ℕ, ◌≡◌, refl, ap, ap₂, sym, ◌∙◌, Bool, true, false, inl, inr, [], ◌∷◌, ◌++◌,
  codes, contains, str_eq, starts_with, has_substring, has_substring-right,
  has_substring-contains_not, has_substring-split, starts_with-stop, or_false, Bool-cases,
  if_of_true, if_of_false, if◌then◌else◌, arith,
}
use rcpp_deep_state.Frontend.Types.{Text, Argument, type_arg}
use rcpp_deep_state.Frontend.Harness.{arg_name, ◌/◌}
use rcpp_deep_state.Frontend.SavedInputs.{
  basename, remove_qs, is_qs, input_name, saved_file, value_of,
}

abbrev pub after_first : Text → Text
after_first [] = []
after_first (c ∷ s) = s

-- A name that can be read back.
abbrev pub IsReadable : Text → Type 0
IsReadable x =
    (contains x b'/' ≡ false)
    × (contains x b'.' ≡ false)
    × (has_substring (after_first x) (codes "qs") ≡ false)

basename-plain : (x : Text) → contains x b'/' ≡ false → basename x ≡ x
unfolding basename
basename-plain [] h = refl
basename-plain (c ∷ x) h = if_of_false (contains (c ∷ x) b'/') (basename x) (c ∷ x) h

contains-slash : (dir x : Text) → contains (dir / x) b'/' ≡ true
contains-slash [] x = refl
contains-slash (c ∷ dir) x = ground (arith, contains-slash dir x)

basename_lem : (dir x : Text) → contains x b'/' ≡ false → basename (dir / x) ≡ x
unfolding basename
basename_lem [] x h = basename-plain x h
basename_lem (c ∷ dir) x h =
    if_of_true (contains ((c ∷ dir) / x) b'/') (basename (dir / x)) ((c ∷ dir) / x)
      (contains-slash (c ∷ dir) x)
    ∙ basename_lem dir x h

starts_with_qs :
    (x : Text)
    → has_substring x (codes "qs") ≡ false
    → starts_with (x ++ codes ".qs") (codes "qs") ≡ false
starts_with_qs [] h = refl
starts_with_qs (c ∷ x) h =
    let (start, later) =
      or_false (starts_with (c ∷ x) (codes "qs")) (has_substring x (codes "qs")) h in
    starts_with-stop (c ∷ x) (codes "qs") (codes "qs") b'.' refl ∙ start

keeps :
    (c : ℕ) (s : Text)
    → starts_with s (codes "qs") ≡ false
    → remove_qs 0 (c ∷ s) ≡ c ∷ remove_qs 0 s
unfolding remove_qs
keeps c s h = ap (λ b. elim b [ true ↦ remove_qs 2 s | false ↦ c ∷ remove_qs 0 s ]) h

-- Only the ending is removed.
remove_qs_lem :
    (x : Text)
    → has_substring (after_first x) (codes "qs") ≡ false
    → remove_qs 0 (x ++ codes ".qs") ≡ x
unfolding remove_qs
remove_qs_lem [] h = refl
remove_qs_lem (c ∷ []) h = keeps c (codes ".qs") refl
remove_qs_lem (c ∷ d ∷ x) h =
    let (start, later) =
      or_false (starts_with (d ∷ x) (codes "qs")) (has_substring x (codes "qs")) h in
    keeps c ((d ∷ x) ++ codes ".qs") (starts_with_qs (d ∷ x) h)
    ∙ ap (λ s. c ∷ s) (remove_qs_lem (d ∷ x) later)

is_qs_not : (dir x : Text) → is_qs dir ≡ false → contains x b'.' ≡ false → is_qs (dir / x) ≡ false
is_qs_not dir x h k = elim (Bool-cases (is_qs (dir / x))) [
  | inl found ↦ elim (has_substring-split dir x (codes "qs") b'.' b'/' refl found) [
    | inl in_dir ↦ absurd (true≢false (sym in_dir ∙ h))
    | inr in_name ↦
        absurd (true≢false (sym in_name ∙ has_substring-contains_not x (codes ".qs") b'.' k refl))
  ]
  | inr not_found ↦ not_found
]

is_qs_yes : (dir x : Text) → is_qs (dir / (x ++ codes ".qs")) ≡ true
is_qs_yes dir x =
    has_substring-right dir (b'/' ∷ (x ++ codes ".qs")) (codes ".qs")
      (has_substring-right (b'/' ∷ x) (codes ".qs") (codes ".qs") refl)

-- The name of a matrix of arma, and that of another argument.
mat_name : (dir x : Text) → is_qs dir ≡ false → IsReadable x → input_name (dir / x) ≡ x
unfolding input_name
mat_name dir x h (no_slash, no_dot, no_qs) =
    if_of_false (is_qs (dir / x)) (remove_qs 0 (basename (dir / x))) (basename (dir / x))
      (is_qs_not dir x h no_dot)
    ∙ basename_lem dir x no_slash

qs_name : (dir x : Text) → IsReadable x → input_name (dir / (x ++ codes ".qs")) ≡ x
unfolding input_name
qs_name dir x (no_slash, no_dot, no_qs) =
    let path : Text = dir / (x ++ codes ".qs") in
    if_of_true (is_qs path) (remove_qs 0 (basename path)) (basename path) (is_qs_yes dir x)
    ∙ (ap (remove_qs 0)
          (basename_lem dir (x ++ codes ".qs") (contains-append x (codes ".qs") b'/' no_slash refl))
        ∙ remove_qs_lem x no_qs)

module _ {Value : Type 0} (qread scan : Text → Value) (dir : Text) where
  -- What is read of an argument: matrices of arma by scan, the others by qread.
  abbrev pub entry : Argument → Text × Value
  entry a =
      let path : Text = dir / saved_file a in
      (
        arg_name a,
        if str_eq (type_arg a.argument_type) (codes "mat") then scan path else qread path,
      )

  abbrev pub read_as : Bool → Text → Text × Value
  read_as is_mat x =
      let path : Text = dir / (if is_mat then x else x ++ codes ".qs") in
      (x, if is_mat then scan path else qread path)

  pub read_as_lem :
      (is_mat : Bool) (x : Text)
      → is_qs dir ≡ false
      → IsReadable x
      → let path : Text = dir / (if is_mat then x else x ++ codes ".qs") in
        ◌≡◌ {A = Text × Value} (input_name path, value_of qread scan path) (read_as is_mat x)
  read_as_lem true x h readable =
      let path : Text = dir / x in
      ap₂ (λ name value. (name, value)) (mat_name dir x h readable)
        (if_of_false (is_qs path) (qread path) (scan path) (is_qs_not dir x h readable.1))
  read_as_lem false x h readable =
      let path : Text = dir / (x ++ codes ".qs") in
      ap₂ (λ name value. (name, value)) (qs_name dir x readable)
        (if_of_true (is_qs path) (qread path) (scan path) (is_qs_yes dir x))
