-- ===== src/Base/Search.antt =====
-- Searching in texts that are put together.
use Prim.Native.Nat.{ℕ, zero, suc, ◌-◌, ◌≤◌}
use mathlib.Core.Path.{◌≡◌, refl, ap, sym, ◌∙◌}
use mathlib.Core.Bool.{Bool, true, false}
use mathlib.Core.List.{List, [], ◌∷◌, ◌++◌}
use mathlib.Core.Logic.{◌⊎◌, inl, inr}
use native.Mathlib.Omega.{arith}
use rcpp_deep_state.Base.Tests.{Bool-cases}
use rcpp_deep_state.Base.Lists.{length, contains}
use rcpp_deep_state.Base.Text.{starts_with, has_substring}
use rcpp_deep_state.Base.Gsub.{gsub_from, gsub}

-- A character that the pattern has not stops a match.
pub starts_with-stop :
    (u s p : List ℕ) (d : ℕ) → contains p d ≡ false → starts_with (u ++ (d ∷ s)) p ≡ starts_with u p
starts_with-stop u s [] d h = refl
starts_with-stop [] s (c ∷ p) d h = ground arith
starts_with-stop (e ∷ u) s (c ∷ p) d h = ground (arith, starts_with-stop u s p d)

pub starts_with-append : (u s p : List ℕ) → starts_with u p ≡ true → starts_with (u ++ s) p ≡ true
starts_with-append u s [] h = refl
starts_with-append [] s (c ∷ p) h = cc
starts_with-append (e ∷ u) s (c ∷ p) h = ground (arith, starts_with-append u s p)

pub starts_with_refl : (p s : List ℕ) → starts_with (p ++ s) p ≡ true
starts_with_refl [] s = refl
starts_with_refl (c ∷ p) s = ground (arith, starts_with_refl p s)

found_empty : (s : List ℕ) → has_substring s [] ≡ true
found_empty [] = refl
found_empty (c ∷ s) = refl

pub has_substring-left :
    (u s p : List ℕ) → has_substring u p ≡ true → has_substring (u ++ s) p ≡ true
has_substring-left [] s [] h = found_empty s
has_substring-left [] s (c ∷ p) h = cc
has_substring-left (e ∷ u) s p h =
    ground (arith, has_substring-left u s p, starts_with-append (e ∷ u) s p)

pub has_substring-right :
    (u s p : List ℕ) → has_substring s p ≡ true → has_substring (u ++ s) p ≡ true
has_substring-right [] s p h = h
has_substring-right (e ∷ u) s p h = ground (arith, has_substring-right u s p h)

pub has_substring_refl : (p s : List ℕ) → has_substring (p ++ s) p ≡ true
has_substring_refl [] s = found_empty s
has_substring_refl (c ∷ p) s = ground (arith, starts_with_refl (c ∷ p) s)

-- What is found in a text with such a character is found before or after it.
pub has_substring-split :
    (u s p : List ℕ) (c d : ℕ)
    → contains (c ∷ p) d ≡ false
    → has_substring (u ++ (d ∷ s)) (c ∷ p) ≡ true
    → (has_substring u (c ∷ p) ≡ true) ⊎ (has_substring s (c ∷ p) ≡ true)
has_substring-split [] s p c d h e = inr (ground arith)
has_substring-split (x ∷ u) s p c d h e = elim (Bool-cases (starts_with (x ∷ u) (c ∷ p))) [
  | inl here ↦ inl (ground arith)
  | inr not_here ↦
      elim (has_substring-split u s p c d h
        (ground (arith, starts_with-stop (x ∷ u) s (c ∷ p) d h))) [
          | inl before ↦ inl (ground arith)
          | inr after ↦ inr after
        ]
]

pub starts_with-length : (s p : List ℕ) → starts_with s p ≡ true → length p ≤ length s
starts_with-length s [] h = omega arith
starts_with-length [] (c ∷ p) h = cc
starts_with-length (e ∷ s) (c ∷ p) h = grind (arith, starts_with-length s p)

-- Removing goes on anew at such a character.
gsub_from-append :
    (p u s : List ℕ) (k d : ℕ)
    → contains p d ≡ false
    → k ≤ length u
    → gsub_from p k (u ++ (d ∷ s)) ≡ gsub_from p k u ++ gsub_from p 0 (d ∷ s)
unfolding gsub_from
gsub_from-append p [] s zero d h le = refl
gsub_from-append p [] s (suc k) d h le = absurd (omega arith)
gsub_from-append p (x ∷ u) s (suc k) d h le = gsub_from-append p u s k d h (omega arith)
gsub_from-append p (x ∷ u) s zero d h le =
    let step : Bool → List ℕ → List ℕ =
      λ b t. elim b [ true ↦ gsub_from p (length p - 1) t | false ↦ x ∷ gsub_from p 0 t ] in
    let same = starts_with-stop (x ∷ u) s p d h in
    let found = starts_with (x ∷ u) p in
    ap (λ b. step b (u ++ (d ∷ s))) same ∙ elim (Bool-cases found) [
      | inl here ↦
          ap (λ b. step b (u ++ (d ∷ s))) here
          ∙ (gsub_from-append p u s (length p - 1) d h
                (grind (arith, starts_with-length (x ∷ u) p here))
              ∙ ap (λ b. step b u ++ gsub_from p 0 (d ∷ s)) (sym here))
      | inr not_here ↦
          ap (λ b. step b (u ++ (d ∷ s))) not_here
          ∙ (ap (λ t. x ∷ t) (gsub_from-append p u s 0 d h (omega arith))
              ∙ ap (λ b. step b u ++ gsub_from p 0 (d ∷ s)) (sym not_here))
    ]

pub gsub-append :
    (p u s : List ℕ) (d : ℕ)
    → contains p d ≡ false
    → gsub p (u ++ (d ∷ s)) ≡ gsub p u ++ gsub p (d ∷ s)
unfolding gsub
gsub-append p u s d h = gsub_from-append p u s 0 d h (omega arith)

-- A text without a character of the pattern.
starts_with-contains :
    (s p : List ℕ) (d : ℕ) → contains s d ≡ false → contains p d ≡ true → starts_with s p ≡ false
starts_with-contains s [] d h k = cc
starts_with-contains [] (c ∷ p) d h k = refl
starts_with-contains (e ∷ s) (c ∷ p) d h k = ground (arith, starts_with-contains s p d)

pub has_substring-contains_not :
    (s p : List ℕ) (d : ℕ) → contains s d ≡ false → contains p d ≡ true → has_substring s p ≡ false
has_substring-contains_not [] p d h k = starts_with-contains [] p d h k
has_substring-contains_not (c ∷ s) p d h k =
    ground (arith, starts_with-contains (c ∷ s) p d h k, has_substring-contains_not s p d)

pub contains-append :
    (u v : List ℕ) (d : ℕ)
    → contains u d ≡ false
    → contains v d ≡ false
    → contains (u ++ v) d ≡ false
contains-append [] v d h k = k
contains-append (c ∷ u) v d h k = ground (arith, contains-append u v d)
