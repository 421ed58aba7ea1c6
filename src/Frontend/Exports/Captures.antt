-- ===== src/Frontend/Exports/Captures.antt =====
-- The scan on the lines that Rcpp::compileAttributes writes.
use mathlib.Core.List.{append_assoc}
use rcpp_deep_state.Base.{
  ℕ, suc, ◌+◌, ◌≡◌, refl, ap, ap₂, sym, ◌∙◌, Bool, true, false, ◌==◌, ◌&&◌, Option, none, some,
  List, [], ◌∷◌, ◌++◌, codes, length, length-append, contains, starts_with, has_substring,
  starts_with-stop, or_false, arith,
}
use rcpp_deep_state.Frontend.Types.{Text, Argument}
use rcpp_deep_state.Frontend.TestNames.{is_newline}
use rcpp_deep_state.Frontend.Exports.{
  drop, input_parameter, end_of_type, has_name, argument_type_at, until_paren, capture, match_after,
  captures,
}

pub until_paren_lem :
    (x rest : Text) → contains x b'(' ≡ false → until_paren (x ++ (b'(' ∷ rest)) ≡ x
unfolding until_paren
until_paren_lem [] rest h = refl
until_paren_lem (c ∷ x) rest h = ground (arith, until_paren_lem x rest)

drop_over : (u s : Text) (n : ℕ) → drop (length u + n) (u ++ s) ≡ drop n s
drop_over [] s n = ap (λ k. drop k s) (omega arith)
drop_over (c ∷ u) s n =
    let one_more : length (c ∷ u) + n ≡ suc (length u + n) = omega arith in
    ap (λ k. drop k (c ∷ (u ++ s))) one_more ∙ drop_over u s n

skip_over : (u s : Text) (n : ℕ) → captures (length u + n) (u ++ s) ≡ captures n s
unfolding captures
skip_over [] s n = ap (λ k. captures k s) (omega arith)
skip_over (c ∷ u) s n =
    let one_more : length (c ∷ u) + n ≡ suc (length u + n) = omega arith in
    ap (λ k. captures k (c ∷ (u ++ s))) one_more ∙ skip_over u s n

pub not_found :
    (c : ℕ) (s : Text)
    → starts_with (c ∷ s) input_parameter ≡ false
    → captures 0 (c ∷ s) ≡ captures 0 s
unfolding captures
not_found c s h =
    ap
      (λ b. elim b [
        | false ↦ captures 0 s
        | true ↦ elim (match_after (drop 16 s)) [
          | none ↦ captures 0 s
          | some m ↦ m.0 ∷ captures (16 + m.1) s
        ]
      ])
      h

-- A type without `>::type` and line ends is captured, with the space after it.
argument_type_at_lem :
    (t rest : Text)
    → has_substring t end_of_type ≡ false
    → contains t b'\n' ≡ false
    → argument_type_at (t ++ (codes " >::type " ++ rest)) ≡ some (t ++ codes " ")
unfolding argument_type_at is_newline
argument_type_at_lem [] rest h k = refl
argument_type_at_lem (c ∷ t) rest h k =
    let after = t ++ (codes " >::type " ++ rest) in
    let (start, later) =
      or_false (starts_with (c ∷ t) end_of_type) (has_substring t end_of_type) h in
    let (other, more) = or_false (c == b'\n') (contains t b'\n') k in
    let goes_on : Bool → Option Text = λ b. elim b [
      | true ↦ none
      | false ↦ elim (argument_type_at after) [ none ↦ none | some u ↦ some (c ∷ u) ]
    ] in
    ap
      (λ b. elim (b && has_name (drop 7 (c ∷ after))) [
        | true ↦ some []
        | false ↦ goes_on (is_newline c)
      ])
      (starts_with-stop (c ∷ t) (codes ">::type " ++ rest) end_of_type b' ' refl ∙ start)
    ∙ (ap goes_on other
        ∙ ap (λ o. elim o [ none ↦ none | some u ↦ some (c ∷ u) ])
            (argument_type_at_lem t rest later more))

-- Nothing is captured in a text without the word before a character that it has not.
pub captures_absent :
    (u s : Text) (d : ℕ)
    → contains input_parameter d ≡ false
    → has_substring u input_parameter ≡ false
    → captures 0 (u ++ (d ∷ s)) ≡ captures 0 s
captures_absent [] s d h k = not_found d s (starts_with-stop [] s input_parameter d h)
captures_absent (c ∷ u) s d h k =
    let (start, later) =
      or_false (starts_with (c ∷ u) input_parameter) (has_substring u input_parameter) k in
    not_found c (u ++ (d ∷ s)) (starts_with-stop (c ∷ u) s input_parameter d h ∙ start)
    ∙ captures_absent u s d h later

-- One parameter.
abbrev pub captured : Text → Text → Argument
captured t x = record { argument_type = t ++ codes " "; argument_name = codes " " ++ x }

match_after_lem :
    (t x rest : Text)
    → has_substring t end_of_type ≡ false
    → contains t b'\n' ≡ false
    → contains x b'(' ≡ false
    → match_after (t ++ (codes " >::type " ++ (x ++ (b'(' ∷ rest))))
      ≡ some (captured t x, length (t ++ codes " ") + (7 + length (codes " " ++ x)))
unfolding match_after
match_after_lem t x rest h k p =
    let after : Text = x ++ (b'(' ∷ rest) in
    let u : Text = t ++ codes " " in
    let whole : Text = t ++ (codes " >::type " ++ after) in
    let found_name : until_paren (drop (length u + 7) whole) ≡ b' ' ∷ x =
      ap (λ s. until_paren (drop (length u + 7) s))
        (sym (append_assoc t (codes " ") (codes ">::type " ++ after)))
      ∙ (ap until_paren (drop_over u (codes ">::type " ++ after) 7)
          ∙ until_paren_lem (b' ' ∷ x) rest p) in
    ap (λ o. elim o [ none ↦ none | some v ↦ some (capture v whole) ])
      (argument_type_at_lem t after h k)
    ∙ ap
        (λ name.
          some (record { argument_type = u; argument_name = name }, length u + (7 + length name)))
        found_name

-- A match that begins here.
found :
    (c : ℕ) (s : Text) (m : Argument × ℕ)
    → starts_with (c ∷ s) input_parameter ≡ true
    → match_after (drop 16 s) ≡ some m
    → captures 0 (c ∷ s) ≡ m.0 ∷ captures (16 + m.1) s
unfolding captures
found c s m h e =
    let matched : Option (Argument × ℕ) → List Argument =
      λ o. elim o [ none ↦ captures 0 s | some n ↦ n.0 ∷ captures (16 + n.1) s ] in
    ap (λ b. elim b [ false ↦ captures 0 s | true ↦ matched (match_after (drop 16 s)) ]) h
    ∙ ap matched e

after_match :
    (u t x rest : Text)
    → captures
        (length u + (length (t ++ codes " ") + (7 + length (codes " " ++ x))))
        (u ++ (t ++ (codes " >::type " ++ (x ++ (b'(' ∷ rest)))))
      ≡ captures 0 rest
after_match u t x rest =
    let ending : Text = codes " >::type " ++ x in
    let matched : Text = u ++ (t ++ ending) in
    let lengths : length u + (length (t ++ codes " ") + (7 + length (codes " " ++ x)))
        ≡ length matched + 0 =
      grind (
        arith,
        length-append u (t ++ ending),
        length-append t ending,
        length-append t (codes " "),
      ) in
    let texts : u ++ (t ++ (codes " >::type " ++ (x ++ (b'(' ∷ rest)))) ≡ matched ++ (b'(' ∷ rest) =
      ap (λ s. u ++ s) (sym (append_assoc t ending (b'(' ∷ rest)))
      ∙ sym (append_assoc u (t ++ ending) (b'(' ∷ rest)) in
    ap₂ captures lengths texts ∙ (skip_over matched (b'(' ∷ rest) 0 ∙ not_found b'(' rest refl)

-- The scan goes on after the name.
pub captures-parameter :
    (t x rest : Text)
    → has_substring t end_of_type ≡ false
    → contains t b'\n' ≡ false
    → contains x b'(' ≡ false
    → captures 0 (input_parameter ++ (t ++ (codes " >::type " ++ (x ++ (b'(' ∷ rest)))))
      ≡ captured t x ∷ captures 0 rest
captures-parameter t x rest h k p =
    let whole : Text = t ++ (codes " >::type " ++ (x ++ (b'(' ∷ rest))) in
    let word : Text = codes "nput_parameter< " in
    found b'i' (word ++ whole) _ refl (match_after_lem t x rest h k p)
    ∙ ap (λ args. captured t x ∷ args) (after_match word t x rest)
