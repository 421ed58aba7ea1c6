-- ===== src/Base/Gsub.antt =====
-- R's `gsub(pattern, "", s, fixed = TRUE)` and the other calls on texts that the R code makes.
use Prim.Native.Nat.{ℕ, zero, suc, ◌-◌}
use mathlib.Core.Path.{◌≡◌, refl}
use mathlib.Core.Bool.{Bool, true, false, ◌||◌}
use mathlib.Core.List.{List, [], ◌∷◌, ◌++◌}
use native.Mathlib.Omega.{arith}
use rcpp_deep_state.Base.Lists.{length, contains}
use rcpp_deep_state.Base.Text.{str_eq, starts_with, has_substring}

-- The scan; a match is skipped, of which `skip` characters are left.
unfoldable pub gsub_from : List ℕ → ℕ → List ℕ → List ℕ
gsub_from pattern skip [] = []
gsub_from pattern (suc skip) (c ∷ s) = gsub_from pattern skip s
gsub_from pattern zero (c ∷ s) = elim (starts_with (c ∷ s) pattern) [
  | true ↦ gsub_from pattern (length pattern - 1) s
  | false ↦ c ∷ gsub_from pattern 0 s
]

unfoldable pub gsub : List ℕ → List ℕ → List ℕ
unfolding gsub_from
gsub pattern s = gsub_from pattern 0 s

-- `gsub` with a replacement.
unfoldable pub gsub_by_from : List ℕ → List ℕ → ℕ → List ℕ → List ℕ
gsub_by_from pattern replacement skip [] = []
gsub_by_from pattern replacement (suc skip) (c ∷ s) = gsub_by_from pattern replacement skip s
gsub_by_from pattern replacement zero (c ∷ s) = elim (starts_with (c ∷ s) pattern) [
  | true ↦ replacement ++ gsub_by_from pattern replacement (length pattern - 1) s
  | false ↦ c ∷ gsub_by_from pattern replacement 0 s
]

unfoldable pub gsub_by : List ℕ → List ℕ → List ℕ → List ℕ
unfolding gsub_by_from
gsub_by pattern replacement s = gsub_by_from pattern replacement 0 s

-- `x %in% xs`.
abbrev pub is_in : List ℕ → List (List ℕ) → Bool
is_in x [] = false
is_in x (y ∷ ys) = str_eq x y || is_in x ys

-- A text without the pattern stays as it is.
pub gsub_absent : (pattern s : List ℕ) → has_substring s pattern ≡ false → gsub pattern s ≡ s
unfolding gsub gsub_from
gsub_absent pattern [] h = refl
gsub_absent pattern (c ∷ s) h = ground (arith, gsub_absent pattern s)

-- Removing a character leaves none of it.
pub contains-gsub : (c : ℕ) (s : List ℕ) → contains (gsub (c ∷ []) s) c ≡ false
unfolding gsub gsub_from
contains-gsub c [] = refl
contains-gsub c (d ∷ s) = ground (arith, contains-gsub c s)

pub has_substring-contains : (s : List ℕ) (c : ℕ) → has_substring s (c ∷ []) ≡ contains s c
has_substring-contains [] c = refl
has_substring-contains (d ∷ s) c = ground (arith, has_substring-contains s c)
