-- ===== src/Base/Text.antt =====
-- C strings as lists of character codes, without the terminating zero.
use Prim.Native.Nat.{ℕ}
use Prim.Native.Char.{code}
use Prim.Native.String.{String}
use mathlib.Core.Bool.{Bool, true, false, ◌&&◌, ◌||◌}
use mathlib.Core.Path.{◌≡◌, refl, sym, ap, ◌∙◌}
use mathlib.Core.Logic.{◌≢◌, inl, inr}
use native.Mathlib.Omega.{arith}
use mathlib.Core.Option.{Option, none, some}
use mathlib.Core.List.{List, [], ◌∷◌, ◌++◌, reverse, reverse-append}
use rcpp_deep_state.Base.Tests.{◌==◌, if◌then◌else◌, Bool-cases}
use rcpp_deep_state.Base.Lists.{get_elem?}

abbrev pub codes : String → List ℕ
codes String.[] = []
codes (String.◌∷◌ c s) = code c ∷ codes s

-- `strcmp(s, t) == 0`.
abbrev pub str_eq : List ℕ → List ℕ → Bool
str_eq [] [] = true
str_eq [] (d ∷ t) = false
str_eq (c ∷ s) [] = false
str_eq (c ∷ s) (d ∷ t) = c == d && str_eq s t

-- `strchr(s, c)`: the rest of the string from the first `c` on.
abbrev pub strchr : List ℕ → ℕ → Option (List ℕ)
strchr [] c = none
strchr (d ∷ s) c = if d == c then some (d ∷ s) else strchr s c

abbrev pub starts_with : List ℕ → List ℕ → Bool
starts_with s [] = true
starts_with [] (d ∷ t) = false
starts_with (c ∷ s) (d ∷ t) = c == d && starts_with s t

-- `strstr(s, t) != NULL`.
abbrev pub has_substring : List ℕ → List ℕ → Bool
has_substring [] t = starts_with [] t
has_substring (c ∷ s) t = starts_with (c ∷ s) t || has_substring s t

pub str_eq_lem : (s t : List ℕ) → str_eq s t ≡ true → s ≡ t
str_eq_lem [] [] h = refl
str_eq_lem [] (d ∷ t) h = cc
str_eq_lem (c ∷ s) [] h = cc
str_eq_lem (c ∷ s) (d ∷ t) h = ground (arith, str_eq_lem s t)

pub str_eq_refl : (s : List ℕ) → str_eq s s ≡ true
str_eq_refl [] = refl
str_eq_refl (c ∷ s) = ground (arith, str_eq_refl s)

pub str_eq_of_ne : (s t : List ℕ) → s ≢ t → str_eq s t ≡ false
str_eq_of_ne s t h = elim (Bool-cases (str_eq s t)) [
  | inl same ↦ absurd (h (str_eq_lem s t same))
  | inr other ↦ other
]

-- The character at a place, counted from 0; 0 after the end.
abbrev pub nth : ℕ → List ℕ → ℕ
nth i s = elim (get_elem? s i) [ none ↦ 0 | some c ↦ c ]

-- Texts whose ends differ at a place are different.
pub ends_ne :
    (i : ℕ) (u s v t : List ℕ)
    → nth i (reverse s ++ reverse u) ≢ nth i (reverse t ++ reverse v)
    → u ++ s ≢ v ++ t
ends_ne i u s v t h e =
    h (ap (nth i) (sym (reverse-append u s) ∙ (ap reverse e ∙ reverse-append v t)))
