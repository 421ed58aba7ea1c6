-- ===== src/Frontend/Ranges/Calls.antt =====
-- What a comment on a range is, as a text.
use rcpp_deep_state.Base.{
  ℕ, ◌==◌, ◌≡◌, ◌↔◌, refl, ap, ◌∙◌, true, false, ◌&&◌, Option, none, some, [], ◌∷◌, ◌++◌, ◌⊎◌,
  codes, contains, has_substring, Bool-cases, inl, inr, arith,
}
use rcpp_deep_state.Frontend.Types.{Text}
use rcpp_deep_state.Frontend.Ranges.{after_slashes, cons_to, before_paren, fun_call}

-- A text up to its last opening parenthesis.
abbrev IsBefore : Text → Text → Type 0
IsBefore s c = (v : Text) × (s ≡ c ++ (b'(' ∷ v)) × (contains v b'(' ≡ false)

-- A text from its first two slashes on.
abbrev IsAfter : Text → Text → Type 0
IsAfter line s =
    (u : Text) × (line ≡ u ++ (b'/' ∷ b'/' ∷ s))
    × (has_substring (u ++ codes "/") (codes "//") ≡ false)

cons_to-none : (d : ℕ) (o : Option Text) → cons_to d o ≡ none → (o ≡ none) × ((d == b'(') ≡ false)
cons_to-none d none h = (refl, ground arith)
cons_to-none d (some t) h = cc

none_before : (s : Text) → before_paren s ≡ none → contains s b'(' ≡ false
unfolding before_paren
none_before [] h = refl
none_before (d ∷ s) h =
    let (later, here) = cons_to-none d (before_paren s) h in ground (arith, none_before s later)

before_paren-none : (s : Text) → contains s b'(' ≡ false → before_paren s ≡ none
unfolding before_paren
before_paren-none [] h = refl
before_paren-none (d ∷ s) h = ground (arith, before_paren-none s)

-- The first character is the last parenthesis, or comes before it.
cons_to-some :
    (d : ℕ) (o : Option Text) (c : Text)
    → cons_to d o ≡ some c
    → ((o ≡ none) × (d ≡ b'(') × (c ≡ [])) ⊎ ((t : Text) × (o ≡ some t) × (c ≡ d ∷ t))
cons_to-some d none c h = elim (Bool-cases (d == b'(')) [
  | inl here ↦ inl (refl, ground arith, ground arith)
  | inr other ↦ absurd (ground arith)
]
cons_to-some d (some t) c h = inr (t, refl, cc)

before_paren-IsBefore : (s c : Text) → before_paren s ≡ some c → IsBefore s c
unfolding before_paren
before_paren-IsBefore [] c h = cc
before_paren-IsBefore (d ∷ s) c h = elim (cons_to-some d (before_paren s) c h) [
  | inl (later, here, same) ↦ (s, cc, none_before s later)
  | inr (t, later, same) ↦ let (v, e, last) = before_paren-IsBefore s t later in (v, cc, last)
]

IsBefore-before_paren :
    (c v : Text) → contains v b'(' ≡ false → before_paren (c ++ (b'(' ∷ v)) ≡ some c
unfolding before_paren
IsBefore-before_paren [] v h = rw (before_paren-none v h) refl
IsBefore-before_paren (d ∷ c) v h = rw (IsBefore-before_paren c v h) refl

-- One more character before the slashes.
further :
    (a b : ℕ) (u r s : Text)
    → (a == b'/' && b == b'/') ≡ false
    → b ∷ r ≡ u ++ (b'/' ∷ b'/' ∷ s)
    → has_substring (u ++ codes "/") (codes "//") ≡ false
    → has_substring (a ∷ (u ++ codes "/")) (codes "//") ≡ false
further a b [] r s apart e h = let same : b ≡ b'/' = cc in ground arith
further a b (d ∷ u) r s apart e h = let same : b ≡ d = cc in ground arith

both_slashes : (a b : ℕ) → (a == b'/' && b == b'/') ≡ true → (a ≡ b'/') × (b ≡ b'/')
both_slashes a b h = (ground arith, ground arith)

after_slashes-IsAfter : (line s : Text) → after_slashes line ≡ some s → IsAfter line s
unfolding after_slashes
after_slashes-IsAfter [] s h = cc
after_slashes-IsAfter (a ∷ []) s h = cc
after_slashes-IsAfter (a ∷ b ∷ r) s h = elim (Bool-cases (a == b'/' && b == b'/')) [
  | inl here ↦
      let (one, two) = both_slashes a b here in let same : r ≡ s = ground arith in ([], cc, refl)
  | inr apart ↦
      let (u, e, first) = after_slashes-IsAfter (b ∷ r) s (ground arith) in
      (a ∷ u, ap (λ l. a ∷ l) e, further a b u r s apart e first)
]

IsAfter-after_slashes :
    (u s : Text)
    → has_substring (u ++ codes "/") (codes "//") ≡ false
    → after_slashes (u ++ (b'/' ∷ b'/' ∷ s)) ≡ some s
unfolding after_slashes
IsAfter-after_slashes [] s h = refl
IsAfter-after_slashes (a ∷ []) s h = ground arith
IsAfter-after_slashes (a ∷ b ∷ u) s h = ground (arith, IsAfter-after_slashes (b ∷ u) s)

-- The first two slashes, the last parenthesis after them, and what is between.
abbrev pub IsComment : Text → Text → Type 0
IsComment line c =
    (u : Text) × (v : Text) × (line ≡ u ++ (codes "//" ++ (c ++ (codes "(" ++ v))))
    × (has_substring (u ++ codes "/") (codes "//") ≡ false)
    × (contains v b'(' ≡ false)

slashes_first :
    (o : Option Text) (c : Text)
    → elim o [ none ↦ none | some s ↦ before_paren s ] ≡ some c
    → (s : Text) × (o ≡ some s) × (before_paren s ≡ some c)
slashes_first none c h = cc
slashes_first (some s) c h = (s, refl, h)

pub fun_call_iff : (line c : Text) → (fun_call line ≡ some c) ↔ IsComment line c
unfolding fun_call
fun_call_iff line c = (
  λ h.
      let (s, found, h) = slashes_first (after_slashes line) c h in
      let (u, e, first) = after_slashes-IsAfter line s found in
      let (v, same, last) = before_paren-IsBefore s c h in
      (u, v, e ∙ ap (λ t. u ++ (codes "//" ++ t)) same, first, last),
  λ (u, v, e, first, last).
      ap fun_call e
      ∙ (ap (λ o. elim o [ none ↦ none | some s ↦ before_paren s ])
            (IsAfter-after_slashes u (c ++ (codes "(" ++ v)) first)
          ∙ IsBefore-before_paren c v last),
)
