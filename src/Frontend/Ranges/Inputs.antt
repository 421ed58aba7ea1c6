-- ===== src/Frontend/Ranges/Inputs.antt =====
-- The calls of generators in INPUTS, whose ranges are missing.
use mathlib.Core.List.{append_assoc}
use rcpp_deep_state.Base.{
  ℕ, ◌≡◌, refl, ap, sym, ◌∙◌, true, false, none, some, List, [], ◌∷◌, ◌++◌, codes, contains, str_eq,
  gsub, gsub_from, gsub-append, has_substring, has_substring-right, has_substring_refl, if_of_false,
  arith,
}
use rcpp_deep_state.Frontend.Types.{
  Text, Argument, types_table, is_allowed, type_arg, arg_type, rtype_of,
}
use rcpp_deep_state.Frontend.Types.Laws.{allowed_elim, IsAllowed}
use rcpp_deep_state.Frontend.Harness.{arg_name, variable, collect, strip_end, inputs}
use rcpp_deep_state.Frontend.Ranges.Comments.{call_of}

abbrev pub pattern_of : Text → Text
pattern_of t = call_of t ++ codes "();"

-- The end of the declaration of an argument of an allowed datatype.
abbrev pub IsDrawn : Text → Type 0
IsDrawn t =
    (gsub (codes "const") (codes "= RcppDeepState_" ++ (t ++ codes "(); \\\n"))
      ≡ codes "=" ++ (pattern_of t ++ codes " \\\n"))
    × (contains (pattern_of t) b'\n' ≡ false)

pub allowed-IsDrawn : (t : Text) → is_allowed t types_table ≡ true → IsDrawn t
unfolding gsub gsub_from
allowed-IsDrawn t h = allowed_elim IsDrawn t types_table h (
  (refl, refl),
  (
    (refl, refl),
    (
      (refl, refl),
      (
        (refl, refl),
        (
          (refl, refl),
          (
            (refl, refl),
            ((refl, refl), ((refl, refl), ((refl, refl), ((refl, refl), ((refl, refl), tt))))),
          ),
        ),
      ),
    ),
  ),
)

too_long : (x c d : ℕ) (v w : Text) → str_eq (x ∷ (v ++ (c ∷ d ∷ w))) (codes "\\\n") ≡ false
too_long x c d [] w = ground arith
too_long x c d (y ∷ []) w = ground arith
too_long x c d (y ∷ z ∷ v) w = ground arith

-- Only the last two characters are removed.
strip_end-append :
    (v w : Text) (c d : ℕ) → strip_end (v ++ (c ∷ d ∷ w)) ≡ v ++ strip_end (c ∷ d ∷ w)
unfolding strip_end
strip_end-append [] w c d = refl
strip_end-append (x ∷ v) w c d =
    if_of_false (str_eq (x ∷ (v ++ (c ∷ d ∷ w))) (codes "\\\n")) []
      (x ∷ strip_end (v ++ (c ∷ d ∷ w))) (too_long x c d v w)
    ∙ ap (λ s. x ∷ s) (strip_end-append v w c d)

collect-append :
    (f : Argument → Text) (before : List Argument) (r : Argument) (after : List Argument)
    → collect f (before ++ (r ∷ after)) ≡ collect f before ++ (f r ++ collect f after)
unfolding collect
collect-append f [] r after = refl
collect-append f (b ∷ before) r after =
    ap (λ s. f b ++ s) (collect-append f before r after)
    ∙ sym (append_assoc (f b) (collect f before) (f r ++ collect f after))

variable_end :
    (r : Argument)
    → IsAllowed r
    → (s : Text) × (variable r
        ≡ s ++ (codes "=" ++ (pattern_of (type_arg r.argument_type) ++ codes " \\\n")))
unfolding variable
variable_end r allowed =
    let t = type_arg r.argument_type in
    let name = arg_name r in
    let declared : Text = elim (rtype_of t) [
      | some rtype ↦
          codes "  " ++ rtype ++ codes " " ++ name ++ codes "(1); \\\n  " ++ name ++ codes "[0]"
      | none ↦ codes "  " ++ arg_type r.argument_type ++ codes " " ++ name
    ] in
    let rest : Text = codes " RcppDeepState_" ++ (t ++ codes "(); \\\n") in
    (
      gsub (codes "const") declared,
      ap (gsub (codes "const")) (
            append_assoc (declared ++ codes "= RcppDeepState_") t (codes "(); \\\n")
            ∙ append_assoc declared (codes "= RcppDeepState_") (t ++ codes "(); \\\n"))
          ∙ (gsub-append (codes "const") declared rest b'=' refl
              ∙ ap (λ s. gsub (codes "const") declared ++ s) (allowed-IsDrawn t allowed).0),
    )

regroup :
    (l cb s p w ca : Text)
    → l ++ (cb ++ ((s ++ (codes "=" ++ (p ++ w))) ++ ca))
      ≡ ((l ++ cb ++ s ++ codes "=") ++ p) ++ (w ++ ca)
regroup l cb s p w ca =
    ap (λ x. l ++ (cb ++ x))
      (append_assoc s (codes "=" ++ (p ++ w)) ca
        ∙ ap (λ x. s ++ (codes "=" ++ x)) (append_assoc p w ca))
    ∙ sym (
        append_assoc (l ++ cb ++ s ++ codes "=") p (w ++ ca)
        ∙ (append_assoc (l ++ cb ++ s) (codes "=") (p ++ (w ++ ca))
            ∙ (append_assoc (l ++ cb) s (codes "=" ++ (p ++ (w ++ ca)))
                ∙ append_assoc l cb (s ++ (codes "=" ++ (p ++ (w ++ ca)))))))

-- The call of the generator is in INPUTS.
pub inputs-pattern :
    (before : List Argument) (r : Argument) (after : List Argument)
    → IsAllowed r
    → has_substring (inputs (before ++ (r ∷ after))) (pattern_of (type_arg r.argument_type)) ≡ true
inputs-pattern before r after allowed =
    let p = pattern_of (type_arg r.argument_type) in
    let (s, e) = variable_end r allowed in
    let first : Text = codes "#define INPUTS \\\n" in
    let prefix : Text = first ++ collect variable before ++ s ++ codes "=" in
    let rest : Text = b'\n' ∷ collect variable after in
    let text : collect variable (before ++ (r ∷ after))
        ≡ collect variable before
          ++ ((s ++ (codes "=" ++ (p ++ codes " \\\n"))) ++ collect variable after) =
      collect-append variable before r after
      ∙ ap (λ x. collect variable before ++ (x ++ collect variable after)) e in
    let whole : first ++ collect variable (before ++ (r ∷ after))
        ≡ (prefix ++ p) ++ (b' ' ∷ b'\\' ∷ rest) =
      ap (λ x. first ++ x) text
      ∙ regroup first (collect variable before) s p (codes " \\\n") (collect variable after) in
    ap (λ x. has_substring (strip_end x) p) whole
    ∙ (ap (λ x. has_substring x p) (strip_end-append (prefix ++ p) rest b' ' b'\\')
        ∙ (ap (λ x. has_substring x p) (append_assoc prefix p (strip_end (b' ' ∷ b'\\' ∷ rest)))
            ∙ has_substring-right prefix (p ++ strip_end (b' ' ∷ b'\\' ∷ rest)) p
                (has_substring_refl p (strip_end (b' ' ∷ b'\\' ∷ rest)))))
