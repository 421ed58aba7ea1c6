-- ===== src/Generator/Matrices/Laws.antt =====
-- What the matrix generators return.
use rcpp_deep_state.Base.{
  ℕ, zero, suc, ◌*◌, ◌^◌, ◌≤◌, ◌<◌, ◌≡◌, refl, arith, ℤ, pos, negsuc, pos_part, ◌*ℤ◌, IsBetween,
  wrap_of_representable, List, [], ◌∷◌, length, replicate, length-replicate, CutIf, Meets,
  Meets-bind, Meets-mono, Computation, pure, ◌>>=◌,
}
use rcpp_deep_state.Source.{Source, int_in_range-IsBetween}
use rcpp_deep_state.Rcpp.{new_matrix, fill}
use rcpp_deep_state.Generator.Vectors.{inject_missing}
use rcpp_deep_state.Generator.Vectors.Laws.{IsFilled, fill-IsFilled, inject_missing-IsFilled}
use rcpp_deep_state.Generator.Matrices.{count, matrix_with_missing}

product_lem : (r c : ℕ) → pos r *ℤ pos c ≡ pos (r * c)
unfolding ◌*ℤ◌
product_lem r c = ground arith

-- The number of elements, where it fits an `int`.
count_lem : (r c : ℕ) → r * c < 2 ^ 31 → count (pos r) (pos c) ≡ pos (r * c)
unfolding count
count_lem r c h =
    rw product_lem (wrap_of_representable (2 ^ 31) (pos (r * c)) (omega arith, omega arith))

-- Extents of 1 to 10 give 1 to 100 elements.
extents_lem :
    (r c : ℕ)
    → IsBetween (pos 1) (pos 10) (pos r)
    → IsBetween (pos 1) (pos 10) (pos c)
    → (0 < r * c) × (r * c < 2 ^ 31)
extents_lem r c h k = (grind arith, omega (arith, bound))
  where
    bound : r * c ≤ 10 * 10
    bound = grind arith

-- A matrix of these extents, with all its elements in the range but five.
abbrev pub IsMatrix : {A : Type 0} → (A → Type 0) → ℕ → ℕ → ℤ × ℤ × List A → Type 0
IsMatrix P r c t = (t.0 ≡ pos r) × (t.1 ≡ pos c) × IsFilled P (r * c) 5 t.2

-- One whose extents are from 1 to 10.
abbrev pub IsSmallMatrix : {A : Type 0} → (A → Type 0) → ℤ × ℤ × List A → Type 0
IsSmallMatrix P t =
    IsBetween (pos 1) (pos 10) t.0
    × IsBetween (pos 1) (pos 10) t.1
    × IsFilled P (pos_part t.0 * pos_part t.1) 5 t.2

IsSmallMatrix-of_extents :
    {A : Type 0} (P : A → Type 0) (r c : ℕ) (t : ℤ × ℤ × List A)
    → IsBetween (pos 1) (pos 10) (pos r)
    → IsBetween (pos 1) (pos 10) (pos c)
    → IsMatrix P r c t
    → IsSmallMatrix P t
IsSmallMatrix-of_extents P r c t h k (e, e', f) = rw (e, e') (h, k, f)

-- An extent that is drawn.
pub extent-IsBetween :
    (src : Source)
    → Meets (CutIf src.symbolic) (src.int_in_range (pos 1) (pos 10)) (IsBetween (pos 1) (pos 10))
extent-IsBetween src =
    int_in_range-IsBetween src (pos 1) (pos 10) (omega arith) (omega arith) (omega arith)

module _ (src : Source) where
  open src use {State, symbolic, Double, IsDoubleBetween}

  -- `OneOf` of the two functions, for a matrix of `n` elements.
  one_of_matrix-IsFilled :
      {A : Type 0} (P : A → Type 0) (draw : Computation State A) (missing : List A) (n : ℕ)
      (m : List A)
      → Meets (CutIf symbolic) draw P
      → 0 < length missing
      → length missing < 2 ^ 31
      → 0 < n
      → n < 2 ^ 31
      → length m ≡ n
      → Meets
          (CutIf symbolic)
          (src.one_of (fill (pos n) draw m ∷ matrix_with_missing src (pos n) draw missing m ∷ []))
          (IsFilled P n 5)
  unfolding matrix_with_missing
  one_of_matrix-IsFilled P draw missing zero m good some_missing few h k e = absurd (omega arith)
  one_of_matrix-IsFilled P draw missing (suc n) m good some_missing few h k e =
      let R = CutIf symbolic in
      src.one_of-Meets R (IsFilled P (suc n) 5) _ (λ e c. c) (omega arith) (omega arith)
        (
          fill-IsFilled src P draw (pos (suc n)) 5 (suc n) m good e (omega arith) (omega arith),
          (
            Meets-bind R (IsFilled P (suc n) 0) (IsFilled P (suc n) 5) (fill (pos (suc n)) draw m)
                (inject_missing src 5 (pos (suc n)) missing)
                (fill-IsFilled src P draw (pos (suc n)) 0 (suc n) m good e (omega arith)
                  (omega arith))
                (λ m' f. inject_missing-IsFilled src P 5 0 n missing m' k some_missing few f),
            tt,
          ),
        )

  -- From the new matrix on, for extents that are not zero.
  pub IsMatrix-of_extents :
      {A : Type 0} (P : A → Type 0) (a : A) (draw : Computation State A) (missing : List A)
      (r c : ℕ)
      → Meets (CutIf symbolic) draw P
      → 0 < length missing
      → length missing < 2 ^ 31
      → 0 < r * c
      → r * c < 2 ^ 31
      → Meets
          (CutIf symbolic)
          (new_matrix a (pos r) (pos c) >>= λ m.
            src.one_of (
              fill (count (pos r) (pos c)) draw m
              ∷ matrix_with_missing src (count (pos r) (pos c)) draw missing m
              ∷ [])
            >>= λ m'. pure (pos r, pos c, m'))
          (IsMatrix P r c)
  IsMatrix-of_extents P a draw missing r c good some_missing few h k = rw (count_lem r c k) (
      Meets-bind (CutIf symbolic) (IsFilled P (r * c) 5) (IsMatrix P r c) _
        (λ m'. pure (pos r, pos c, m'))
        (one_of_matrix-IsFilled P draw missing (r * c) (replicate (r * c) a) good some_missing few h
          k (length-replicate (r * c) a))
        (λ m' f s. (refl, refl, f)))

  -- The rest of a generator that has drawn its extents from 1 to 10.
  pub IsSmallMatrix-of_drawn :
      {A : Type 0} (P : A → Type 0) (a : A) (draw : Computation State A) (missing : List A)
      (rows columns : ℤ)
      → Meets (CutIf symbolic) draw P
      → 0 < length missing
      → length missing < 2 ^ 31
      → IsBetween (pos 1) (pos 10) rows
      → IsBetween (pos 1) (pos 10) columns
      → Meets
          (CutIf symbolic)
          (new_matrix a rows columns >>= λ m.
            src.one_of (
              fill (count rows columns) draw m
              ∷ matrix_with_missing src (count rows columns) draw missing m
              ∷ [])
            >>= λ m'. pure (rows, columns, m'))
          (IsSmallMatrix P)
  IsSmallMatrix-of_drawn P a draw missing (negsuc r) c good some_missing few h k =
      absurd (omega arith)
  IsSmallMatrix-of_drawn P a draw missing (pos r) (negsuc c) good some_missing few h k =
      absurd (omega arith)
  IsSmallMatrix-of_drawn P a draw missing (pos r) (pos c) good some_missing few h k =
      let (positive, fits) = extents_lem r c h k in
      Meets-mono (CutIf symbolic) (IsMatrix P r c) (IsSmallMatrix P) _
        (λ t. λ m. IsSmallMatrix-of_extents P r c t h k m)
        (IsMatrix-of_extents P a draw missing r c good some_missing few positive fits)
