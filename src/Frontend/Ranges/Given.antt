-- ===== src/Frontend/Ranges/Given.antt =====
-- Which ranges are missing, without and with continue_on_missing.
use mathlib.Core.Option.{some-injective}
use mathlib.Core.Bool.{true≢false}
use rcpp_deep_state.Base.{
  ◌≡◌, ◌≢◌, ◌↔◌, refl, ap, ap₂, or_right, subst, sym, ◌∙◌, true, false, Option, none, some, List,
  [], ◌∷◌, ◌++◌, All, codes, has_substring, Bool-cases, inl, inr, arith,
}
use rcpp_deep_state.Frontend.Types.{Text}
use rcpp_deep_state.Frontend.Ranges.{
  fun_call, cons_call, range_elements, first_with, missing_range, cons_missing, check_ranges,
  missing_ranges,
}
use rcpp_deep_state.Frontend.Ranges.Calls.{IsComment, fun_call_iff}
use rcpp_deep_state.Frontend.Ranges.Search.{has_line, or_left, range_elements-append}

-- No line of the harness has the call without a range.
abbrev IsAbsent : List Text → Option Text → Type 0
IsAbsent lines none = Unit
IsAbsent lines (some c) = has_line (c ++ codes "();") lines ≡ false

-- The line has no comment on a range, or the range is given.
abbrev IsGiven : List Text → Text → Type 0
IsGiven lines line = IsAbsent lines (fun_call line)

first_with-absent : (p : Text) (ls : List Text) → has_line p ls ≡ false → first_with p ls ≡ none
unfolding first_with
first_with-absent p [] h = refl
first_with-absent p (l ∷ ls) h = ground (arith, first_with-absent p ls)

first_with-found :
    (p : Text) (ls : List Text)
    → has_line p ls ≡ true
    → (l : Text) × (first_with p ls ≡ some l) × (has_substring l p ≡ true)
unfolding first_with
first_with-found p [] h = cc
first_with-found p (l ∷ ls) h = elim (Bool-cases (has_substring l p)) [
  | inl here ↦ (l, ground arith, here)
  | inr later ↦
      let (k, found, has) = first_with-found p ls (ground arith) in (k, ground (arith, found), has)
]

-- A range that is given is passed over, and another one stops the check.
none≢some : {x : List Text} → none ≢ some x
none≢some e = cc

step_iff :
    (lines : List Text) (o : Option Text) (more : List Text) (P : Type 0)
    → (check_ranges false lines more ≡ some []) ↔ P
    → (check_ranges false lines (cons_call o more) ≡ some []) ↔ (IsAbsent lines o × P)
unfolding check_ranges
step_iff lines none more P iff = (λ h. (tt, iff.0 h), λ p. iff.1 p.1)
step_iff lines (some c) more P iff = elim (Bool-cases (has_line (c ++ codes "();") lines)) [
  | inl left ↦
      let (l, found, _) = first_with-found (c ++ codes "();") lines left in
      let stops = ap (λ o. cons_missing false o (check_ranges false lines more)) found in
      (λ h. absurd (none≢some (sym stops ∙ h)), λ p. absurd (true≢false (sym left ∙ p.0)))
  | inr given ↦
      let passes =
        ap (λ o. cons_missing false o (check_ranges false lines more))
          (first_with-absent (c ++ codes "();") lines given) in
      (λ h. (given, iff.0 (sym passes ∙ h)), λ p. passes ∙ iff.1 p.1)
]

check_ranges_iff :
    (lines ms : List Text)
    → (check_ranges false lines (range_elements ms) ≡ some []) ↔ All (IsGiven lines) ms
unfolding check_ranges range_elements
check_ranges_iff lines [] = (λ h. tt, λ p. refl)
check_ranges_iff lines (m ∷ ms) =
    step_iff lines (fun_call m) (range_elements ms) (All (IsGiven lines) ms)
      (check_ranges_iff lines ms)

-- The line has a comment on a range, and a line of the harness has its call without a range.
abbrev pub IsMissing : List Text → Text → Type 0
IsMissing lines line = (c : Text) × IsComment line c × (has_line (c ++ codes "();") lines ≡ true)

never : {c : Text} → none ≢ some c
never e = cc

IsAbsent-IsMissing :
    (lines : List Text) (line : Text) (o : Option Text)
    → fun_call line ≡ o
    → IsAbsent lines o ↔ (¬ IsMissing lines line)
IsAbsent-IsMissing lines line none e =
    (λ _ m. absurd (never (sym e ∙ (fun_call_iff line m.0).1 m.1)), λ _. tt)
IsAbsent-IsMissing lines line (some c) e = (
  λ h m.
      let same : c ≡ m.0 = some-injective c m.0 (sym e ∙ (fun_call_iff line m.0).1 m.1) in
      let found : has_line (c ++ codes "();") lines ≡ true =
        ap (λ d. has_line (d ++ codes "();") lines) same ∙ m.2 in
      true≢false (sym found ∙ h),
  λ n. elim (Bool-cases (has_line (c ++ codes "();") lines)) [
    | inl found ↦ absurd (n (c, (fun_call_iff line c).0 e, found))
    | inr absent ↦ absent
  ],
)

IsGiven-IsMissing :
    (lines ms : List Text) → All (IsGiven lines) ms ↔ All (λ m. ¬ IsMissing lines m) ms
IsGiven-IsMissing lines [] = (λ _. tt, λ _. tt)
IsGiven-IsMissing lines (m ∷ ms) =
    let here = IsAbsent-IsMissing lines m (fun_call m) refl in
    let later = IsGiven-IsMissing lines ms in
    (λ p. (here.0 p.0, later.0 p.1), λ p. (here.1 p.0, later.1 p.1))

pub missing_ranges_iff :
    (lines : List Text)
    → (missing_ranges false lines ≡ some []) ↔ All (λ l. ¬ IsMissing lines l) lines
unfolding missing_ranges
missing_ranges_iff lines =
    let checks = check_ranges_iff lines lines in
    let given = IsGiven-IsMissing lines lines in
    (λ h. given.0 (checks.0 h), λ p. checks.1 (given.1 p))

-- With continue_on_missing there are warnings only.
abbrev Warns : Option (List Text) → Type 0
Warns o = (ls : List Text) × (o ≡ some ls)

ap_Warns :
    (o : Option Text) (rest : Option (List Text)) (ls : List Text)
    → rest ≡ some ls
    → Warns (cons_missing true o rest)
ap_Warns none rest ls e = (ls, e)
ap_Warns (some l) (some ms) ls e = (l ∷ ms, refl)
ap_Warns (some l) none ls e = cc

check_ranges-Warns : (lines cs : List Text) → Warns (check_ranges true lines cs)
unfolding check_ranges
check_ranges-Warns lines [] = ([], refl)
check_ranges-Warns lines (c ∷ cs) =
    let (ls, e) = check_ranges-Warns lines cs in
    ap_Warns (missing_range c lines) (check_ranges true lines cs) ls e

-- And a call without a range is among them.
abbrev pub WarnsOf : Text → Option (List Text) → Type 0
WarnsOf p o = (ls : List Text) × (o ≡ some ls) × (has_line p ls ≡ true)

kept :
    (p : Text) (o : Option Text) (rest : Option (List Text)) (ls : List Text)
    → rest ≡ some ls
    → has_line p ls ≡ true
    → WarnsOf p (cons_missing true o rest)
kept p none rest ls e h = (ls, e, h)
kept p (some l) rest ls e h =
    (l ∷ ls, ap (cons_missing true (some l)) e, or_right (has_substring l p) (has_line p ls) h)

check_ranges-WarnsOf :
    (lines before after : List Text) (c : Text)
    → has_line (c ++ codes "();") lines ≡ true
    → WarnsOf (c ++ codes "();") (check_ranges true lines (before ++ (c ∷ after)))
unfolding check_ranges
check_ranges-WarnsOf lines [] after c h =
    let (l, found, has) = first_with-found (c ++ codes "();") lines h in
    let (ls, e) = check_ranges-Warns lines after in
    (
      l ∷ ls,
      ap₂ (cons_missing true) found e,
      or_left (has_substring l (c ++ codes "();")) (has_line (c ++ codes "();") ls) has,
    )
check_ranges-WarnsOf lines (b ∷ before) after c h =
    let (ls, e, has) = check_ranges-WarnsOf lines before after c h in
    kept (c ++ codes "();") (missing_range b lines)
      (check_ranges true lines (before ++ (c ∷ after))) ls e has

pub missing_ranges-WarnsOf :
    (lines before after : List Text) (line c : Text)
    → lines ≡ before ++ (line ∷ after)
    → fun_call line ≡ some c
    → has_line (c ++ codes "();") lines ≡ true
    → WarnsOf (c ++ codes "();") (missing_ranges true lines)
unfolding missing_ranges range_elements
missing_ranges-WarnsOf lines before after line c here call found =
    subst (λ cs. WarnsOf (c ++ codes "();") (check_ranges true lines cs))
      (sym (
        ap range_elements here
        ∙ (range_elements-append before (line ∷ after)
            ∙ ap (λ o. range_elements before ++ cons_call o (range_elements after)) call)))
      (check_ranges-WarnsOf lines (range_elements before) (range_elements after) c found)
