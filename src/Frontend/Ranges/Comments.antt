-- ===== src/Frontend/Ranges/Comments.antt =====
-- The comments on ranges in a new generation harness.
use mathlib.Core.List.{append_assoc}
use rcpp_deep_state.Base.{
  ◌≡◌, refl, ap, ◌∙◌, ◌⊎◌, true, false, Option, none, some, List, [], ◌∷◌, ◌++◌, All, codes,
  contains, inl, inr, arith,
}
use rcpp_deep_state.Frontend.Types.{
  Text, Argument, types_table, is_allowed, type_arg, args_of, find_row,
}
use rcpp_deep_state.Frontend.Types.Laws.{allowed_elim, IsAllowed}
use rcpp_deep_state.Frontend.Harness.{collect, range_comment}
use rcpp_deep_state.Frontend.TestNames.{is_newline, read_lines}
use rcpp_deep_state.Frontend.TestNames.Split.{newline, IsWhole, split_by-word}
use rcpp_deep_state.Frontend.Ranges.{after_slashes, before_paren, fun_call}

abbrev pub call_of : Text → Text
call_of t = codes " RcppDeepState_" ++ t

abbrev pub comment_of : Text → Text → Text
comment_of t args = codes "// RcppDeepState_" ++ t ++ args

-- A datatype has no range, or a comment of one line on it, which is read back.
abbrev pub IsReadBack : Text → Text → Type 0
IsReadBack t a =
    (args_of t ≡ some a)
    × (contains (comment_of t a) b'\n' ≡ false)
    × (fun_call (comment_of t a) ≡ some (call_of t))

abbrev IsCommented : Text → Type 0
IsCommented t = (args_of t ≡ none) ⊎ ((a : Text) × IsReadBack t a)

allowed-IsCommented : (t : Text) → is_allowed t types_table ≡ true → IsCommented t
unfolding args_of find_row fun_call after_slashes before_paren
allowed-IsCommented t h = allowed_elim IsCommented t types_table h (
  inr (codes "(low,high)", (refl, refl, refl)),
  (
    inr (codes "(low,high)", (refl, refl, refl)),
    (
      inl refl,
      (
        inr (codes "(size,low,high)", (refl, refl, refl)),
        (
          inr (codes "(size,low,high)", (refl, refl, refl)),
          (
            inr (codes "(row,column,low,high)", (refl, refl, refl)),
            (
              inr (codes "(row,column,low,high)", (refl, refl, refl)),
              (
                inl refl,
                (inl refl, (inl refl, (inr (codes "(low,high)", (refl, refl, refl)), tt))),
              ),
            ),
          ),
        ),
      ),
    ),
  ),
)

none-some : (o : Option Text) (a : Text) → o ≡ none → o ≡ some a → ⊥
none-some o a p q = cc

-- Of an allowed datatype with a range.
pub range-IsReadBack :
    (t args : Text)
    → is_allowed t types_table ≡ true
    → args_of t ≡ some args
    → (a : Text) × IsReadBack t a
range-IsReadBack t args h e = elim (allowed-IsCommented t h) [
  | inl bare ↦ absurd (none-some (args_of t) args bare e)
  | inr p ↦ p
]

contains-IsWhole : (s : Text) → contains s b'\n' ≡ false → IsWhole is_newline s
unfolding is_newline
contains-IsWhole [] h = tt
contains-IsWhole (c ∷ s) h = (ground arith, contains-IsWhole s (ground arith))

some_range :
    (r : Argument) (a : Text)
    → args_of (type_arg r.argument_type) ≡ some a
    → range_comment r ≡ comment_of (type_arg r.argument_type) a ++ codes "\n"
unfolding range_comment
some_range r a e =
    ap
      (λ (o : Option Text). elim o [
        | some args ↦ codes "// RcppDeepState_" ++ type_arg r.argument_type ++ args ++ codes "\n"
        | none ↦ []
      ])
      e

no_range : (r : Argument) → args_of (type_arg r.argument_type) ≡ none → range_comment r ≡ []
unfolding range_comment
no_range r e =
    ap
      (λ (o : Option Text). elim o [
        | some args ↦ codes "// RcppDeepState_" ++ type_arg r.argument_type ++ args ++ codes "\n"
        | none ↦ []
      ])
      e

-- The comment is the next line.
comment_line :
    (r : Argument) (a more : Text)
    → IsReadBack (type_arg r.argument_type) a
    → read_lines (range_comment r ++ more)
      ≡ comment_of (type_arg r.argument_type) a ∷ read_lines more
comment_line r a more back =
    let line = comment_of (type_arg r.argument_type) a in
    ap (λ s. read_lines (s ++ more)) (some_range r a back.0)
    ∙ (ap read_lines (append_assoc line (codes "\n") more)
        ∙ split_by-word is_newline [] line more b'\n' (contains-IsWhole line back.1) newline)

-- Each argument with a range has a line of its own.
pub comment_lines :
    (before : List Argument) (r : Argument) (after : List Argument) (a more : Text)
    → All IsAllowed before
    → IsReadBack (type_arg r.argument_type) a
    → (ls : List Text) × (read_lines (collect range_comment (before ++ (r ∷ after)) ++ more)
        ≡ ls
          ++ (comment_of (type_arg r.argument_type) a
              ∷ read_lines (collect range_comment after ++ more)))
unfolding collect
comment_lines [] r after a more allowed back = (
  [],
  ap read_lines (append_assoc (range_comment r) (collect range_comment after) more)
      ∙ comment_line r a (collect range_comment after ++ more) back,
)
comment_lines (b ∷ before) r after a more allowed back =
    let (ls, e) = comment_lines before r after a more allowed.1 back in
    let rest : Text = collect range_comment (before ++ (r ∷ after)) in
    let apart = append_assoc (range_comment b) rest more in
    elim (allowed-IsCommented (type_arg b.argument_type) allowed.0) [
      | inl bare ↦ (ls, ap read_lines (apart ∙ ap (λ s. s ++ (rest ++ more)) (no_range b bare)) ∙ e)
      | inr (x, ranged) ↦ (
        comment_of (type_arg b.argument_type) x ∷ ls,
        ap read_lines apart
            ∙ (comment_line b x (rest ++ more) ranged
                ∙ ap (λ ms. comment_of (type_arg b.argument_type) x ∷ ms) e),
      )
    ]
