-- ===== src/Base/Replace.antt =====
-- Replacing in texts that are put together, and in the lines of a text.
use Prim.Native.Nat.{ℕ, zero, suc, ◌-◌, ◌≤◌, ◌<◌}
use mathlib.Core.Path.{◌≡◌, refl, ap, sym, ◌∙◌}
use mathlib.Core.Bool.{Bool, true, false}
use mathlib.Core.List.{List, [], ◌∷◌, ◌++◌, append_assoc}
use mathlib.Core.Logic.{inl, inr}
use native.Mathlib.Omega.{arith}
use rcpp_deep_state.Base.Tests.{Bool-cases, or_false}
use rcpp_deep_state.Base.Lists.{length, contains}
use rcpp_deep_state.Base.Text.{starts_with, has_substring}
use rcpp_deep_state.Base.Gsub.{gsub_by, gsub_by_from}
use rcpp_deep_state.Base.Search.{starts_with-stop, starts_with_refl, starts_with-length}

-- One step of the scan, on the answer of the look for the pattern.
step : List ℕ → List ℕ → ℕ → List ℕ → Bool → List ℕ
step p r x t b = elim b [
  | true ↦ r ++ gsub_by_from p r (length p - 1) t
  | false ↦ x ∷ gsub_by_from p r 0 t
]

replace_found :
    (p r : List ℕ) (x : ℕ) (t : List ℕ)
    → starts_with (x ∷ t) p ≡ true
    → gsub_by_from p r 0 (x ∷ t) ≡ r ++ gsub_by_from p r (length p - 1) t
unfolding gsub_by_from step
replace_found p r x t h = ap (step p r x t) h

replace_not_found :
    (p r : List ℕ) (x : ℕ) (t : List ℕ)
    → starts_with (x ∷ t) p ≡ false
    → gsub_by_from p r 0 (x ∷ t) ≡ x ∷ gsub_by_from p r 0 t
unfolding gsub_by_from step
replace_not_found p r x t h = ap (step p r x t) h

skip_over : (p r u s : List ℕ) → gsub_by_from p r (length u) (u ++ s) ≡ gsub_by_from p r 0 s
unfolding gsub_by_from
skip_over p r [] s = refl
skip_over p r (x ∷ u) s = skip_over p r u s

-- A match at the front is replaced.
pub gsub_by-match :
    (c : ℕ) (p r s : List ℕ) → gsub_by (c ∷ p) r ((c ∷ p) ++ s) ≡ r ++ gsub_by (c ∷ p) r s
unfolding gsub_by
gsub_by-match c p r s =
    let rest_length : length (c ∷ p) - 1 ≡ length p = omega arith in
    replace_found (c ∷ p) r c (p ++ s) (starts_with_refl (c ∷ p) s)
    ∙ (ap (λ k. r ++ gsub_by_from (c ∷ p) r k (p ++ s)) rest_length
        ∙ ap (λ t. r ++ t) (skip_over (c ∷ p) r p s))

-- Replacing goes on anew at a character that the pattern has not.
gsub_by_from-append :
    (p r u s : List ℕ) (k d : ℕ)
    → contains p d ≡ false
    → k ≤ length u
    → gsub_by_from p r k (u ++ (d ∷ s)) ≡ gsub_by_from p r k u ++ gsub_by_from p r 0 (d ∷ s)
unfolding gsub_by_from
gsub_by_from-append p r [] s zero d h le = refl
gsub_by_from-append p r [] s (suc k) d h le = absurd (omega arith)
gsub_by_from-append p r (x ∷ u) s (suc k) d h le = gsub_by_from-append p r u s k d h (omega arith)
gsub_by_from-append p r (x ∷ u) s zero d h le =
    let rest = gsub_by_from p r 0 (d ∷ s) in
    let same = starts_with-stop (x ∷ u) s p d h in
    elim (Bool-cases (starts_with (x ∷ u) p)) [
      | inl here ↦
          replace_found p r x (u ++ (d ∷ s)) (same ∙ here)
          ∙ (ap (λ t. r ++ t)
                (gsub_by_from-append p r u s (length p - 1) d h
                  (grind (arith, starts_with-length (x ∷ u) p here)))
              ∙ (sym (append_assoc r (gsub_by_from p r (length p - 1) u) rest)
                  ∙ ap (λ t. t ++ rest) (sym (replace_found p r x u here))))
      | inr not_here ↦
          replace_not_found p r x (u ++ (d ∷ s)) (same ∙ not_here)
          ∙ (ap (λ t. x ∷ t) (gsub_by_from-append p r u s 0 d h (omega arith))
              ∙ ap (λ t. t ++ rest) (sym (replace_not_found p r x u not_here)))
    ]

gsub_by_absent : (p r s : List ℕ) → has_substring s p ≡ false → gsub_by_from p r 0 s ≡ s
unfolding gsub_by_from
gsub_by_absent p r [] h = refl
gsub_by_absent p r (c ∷ s) h =
    let (start, later) = or_false (starts_with (c ∷ s) p) (has_substring s p) h in
    replace_not_found p r c s start ∙ ap (λ t. c ∷ t) (gsub_by_absent p r s later)

stops_at :
    (d c : ℕ) (p s : List ℕ) → contains (c ∷ p) d ≡ false → starts_with (d ∷ s) (c ∷ p) ≡ false
stops_at d c p s h = ground arith

-- In parts: at a character that the pattern has not, ...
pub gsub_by-append :
    (c : ℕ) (p r u s : List ℕ) (d : ℕ)
    → contains (c ∷ p) d ≡ false
    → gsub_by (c ∷ p) r (u ++ (d ∷ s)) ≡ gsub_by (c ∷ p) r u ++ (d ∷ gsub_by (c ∷ p) r s)
unfolding gsub_by
gsub_by-append c p r u s d h =
    gsub_by_from-append (c ∷ p) r u s 0 d h (omega arith)
    ∙ ap (λ t. gsub_by_from (c ∷ p) r 0 u ++ t)
        (replace_not_found (c ∷ p) r d s (stops_at d c p s h))

-- ... after a text without the pattern, ...
pub gsub_by-after :
    (c : ℕ) (p r u s : List ℕ) (d : ℕ)
    → contains (c ∷ p) d ≡ false
    → has_substring u (c ∷ p) ≡ false
    → gsub_by (c ∷ p) r (u ++ (d ∷ s)) ≡ u ++ (d ∷ gsub_by (c ∷ p) r s)
unfolding gsub_by
gsub_by-after c p r u s d h absent =
    gsub_by-append c p r u s d h
    ∙ ap (λ t. t ++ (d ∷ gsub_by (c ∷ p) r s)) (gsub_by_absent (c ∷ p) r u absent)

-- ... such as one that is shorter.
pub has_substring_short : (u p : List ℕ) → length u < length p → has_substring u p ≡ false
has_substring_short [] [] lt = absurd (omega arith)
has_substring_short [] (c ∷ p) lt = refl
has_substring_short (x ∷ u) p lt = elim (Bool-cases (starts_with (x ∷ u) p)) [
  | inl here ↦ absurd (grind (arith, starts_with-length (x ∷ u) p here))
  | inr not_here ↦ ground (arith, not_here, has_substring_short u p (omega arith))
]
