-- ===== src/Frontend/PackageDetails/Prototype.antt =====
-- The name in a prototype.
use rcpp_deep_state.Base.{
  ℕ, ◌≡◌, refl, ap, ◌∙◌, Bool, true, false, ◌==◌, Option, none, some, [], ◌∷◌, ◌++◌, codes,
  contains, contains-append, or_false, if_of_true, if_of_false, if◌then◌else◌, arith,
}
use rcpp_deep_state.Frontend.Types.{Text}
use rcpp_deep_state.Frontend.Exports.{until_paren}
use rcpp_deep_state.Frontend.Exports.Captures.{until_paren_lem}
use rcpp_deep_state.Frontend.PackageDetails.{ends_call, has_arguments, call_name, prototype_name}

-- The prototype of a function.
abbrev pub prototype_of : Text → Text → Text → Text
prototype_of return_type fun_name arguments =
    return_type ++ (b' ' ∷ (fun_name ++ (b'(' ∷ (arguments ++ codes ");"))))

ends_call_lem : (s : Text) → ends_call (s ++ codes ");") ≡ true
unfolding ends_call
ends_call_lem [] = refl
ends_call_lem (c ∷ s) = ground (arith, ends_call_lem s)

has_no_arguments : (s : Text) → contains s b'(' ≡ false → has_arguments s ≡ false
unfolding has_arguments
has_no_arguments [] h = refl
has_no_arguments (c ∷ s) h = ground (arith, has_no_arguments s)

has_arguments_lem :
    (name arguments : Text)
    → contains name b'(' ≡ false
    → has_arguments (name ++ (b'(' ∷ (arguments ++ codes ");"))) ≡ true
unfolding has_arguments
has_arguments_lem [] arguments h = ends_call_lem arguments
has_arguments_lem (c ∷ name) arguments h = ground (arith, has_arguments_lem name arguments)

call_name-none : (s : Text) → contains s b'(' ≡ false → call_name s ≡ none
unfolding call_name
call_name-none s h =
    if_of_false (has_arguments s) (some (until_paren s)) none (has_no_arguments s h)

call_name_lem :
    (name arguments : Text)
    → contains name b'(' ≡ false
    → call_name (name ++ (b'(' ∷ (arguments ++ codes ");"))) ≡ some name
unfolding call_name
call_name_lem name arguments h =
    let s : Text = name ++ (b'(' ∷ (arguments ++ codes ");")) in
    if_of_true (has_arguments s) (some (until_paren s)) none (has_arguments_lem name arguments h)
    ∙ ap some (until_paren_lem name (arguments ++ codes ");") h)

step : Text → ℕ → Option Text → Option Text
step s c o = elim o [ some name ↦ some name | none ↦ if c == b' ' then call_name s else none ]

-- No name in what follows.
no_name_step :
    (c : ℕ) (s : Text)
    → prototype_name s ≡ none
    → (if c == b' ' then call_name s else none) ≡ none
    → prototype_name (c ∷ s) ≡ none
unfolding prototype_name step
no_name_step c s h k = ap (step s c) h ∙ k

either_none : (b : Bool) (o : Option Text) → o ≡ none → (if b then o else none) ≡ none
either_none true o h = h
either_none false o h = refl

no_name : (s : Text) → contains s b'(' ≡ false → prototype_name s ≡ none
unfolding prototype_name
no_name [] h = refl
no_name (c ∷ s) h =
    let (here, later) = or_false (c == b'(') (contains s b'(') h in
    no_name_step c s (no_name s later)
      (either_none (c == b' ') (call_name s) (call_name-none s later))

-- None in the name itself, which has no space.
no_name_in :
    (name arguments : Text)
    → contains name b' ' ≡ false
    → contains arguments b'(' ≡ false
    → prototype_name (name ++ (b'(' ∷ (arguments ++ codes ");"))) ≡ none
no_name_in [] arguments h k =
    no_name_step b'(' (arguments ++ codes ");")
      (no_name _ (contains-append arguments (codes ");") b'(' k refl)) refl
no_name_in (c ∷ name) arguments h k =
    let s : Text = name ++ (b'(' ∷ (arguments ++ codes ");")) in
    let (here, later) = or_false (c == b' ') (contains name b' ') h in
    no_name_step c s (no_name_in name arguments later k)
      (if_of_false (c == b' ') (call_name s) none here)

found_later :
    (c : ℕ) (s name : Text) → prototype_name s ≡ some name → prototype_name (c ∷ s) ≡ some name
unfolding prototype_name step
found_later c s name h = ap (step s c) h

-- The last space before the parenthesis ends the type.
pub prototype_name_lem :
    (return_type name arguments : Text)
    → contains name b' ' ≡ false
    → contains name b'(' ≡ false
    → contains arguments b'(' ≡ false
    → prototype_name (prototype_of return_type name arguments) ≡ some name
unfolding prototype_name step
prototype_name_lem [] name arguments h k e =
    let s : Text = name ++ (b'(' ∷ (arguments ++ codes ");")) in
    ap (step s b' ') (no_name_in name arguments h e) ∙ call_name_lem name arguments k
prototype_name_lem (c ∷ return_type) name arguments h k e =
    found_later c (prototype_of return_type name arguments) name
      (prototype_name_lem return_type name arguments h k e)
