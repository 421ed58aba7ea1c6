-- ===== src/Generator/Matrices/Extents.antt =====
-- What the matrix generators return.
use rcpp_deep_state.Base.{
  ℕ, ◌*◌, ◌^◌, ◌<◌, arith, ℤ, pos, ◌≤ℤ◌, IsBetween, IsRepresentable, CutIf, Meets, Meets-bind,
}
use rcpp_deep_state.Source.{Source, int_in_range-IsBetween}
use rcpp_deep_state.Generator.Vectors.{missing_doubles, missing_ints}
use rcpp_deep_state.Generator.Matrices.{
  random_numeric_matrix, ranged_numeric_matrix, random_integer_matrix, ranged_integer_matrix,
}
use rcpp_deep_state.Generator.Matrices.Laws.{
  IsMatrix, IsSmallMatrix, extent-IsBetween, IsMatrix-of_extents, IsSmallMatrix-of_drawn,
}

module _ (src : Source) where
  open src use {symbolic, Double, IsDoubleBetween}

  -- RcppDeepState_NumericMatrix() always returns a matrix of 1 to 10 rows and columns with all
  -- elements but five between 0 and 1.7E308, unless symbolic execution cuts the path.
  pub random_numeric_matrix_lem :
      Meets
        (CutIf symbolic)
        (random_numeric_matrix src)
        (IsSmallMatrix (IsDoubleBetween (src.of_int (pos 0)) src.huge))
  unfolding random_numeric_matrix
  random_numeric_matrix_lem =
      let P = IsDoubleBetween (src.of_int (pos 0)) src.huge in
      let R = CutIf symbolic in
      Meets-bind R (λ d. Unit {0}) (IsSmallMatrix P) src.double _ src.double-returns
        (λ d u.
          Meets-bind R (IsBetween (pos 1) (pos 10)) (IsSmallMatrix P)
            (src.int_in_range (pos 1) (pos 10)) _ (extent-IsBetween src)
            (λ rows h.
              Meets-bind R (IsBetween (pos 1) (pos 10)) (IsSmallMatrix P)
                (src.int_in_range (pos 1) (pos 10)) _ (extent-IsBetween src)
                (λ columns k.
                  IsSmallMatrix-of_drawn src P src.zero
                    (src.double_in_range (src.of_int (pos 0)) src.huge) (missing_doubles src d) rows
                    columns (src.double_in_range-between (src.of_int (pos 0)) src.huge)
                    (omega arith) (omega arith) h k)))

  -- RcppDeepState_IntegerMatrix() always returns a matrix of 1 to 10 rows and columns with all
  -- elements but five from 0 to 100, unless symbolic execution cuts the path.
  pub random_integer_matrix_lem :
      Meets
        (CutIf symbolic)
        (random_integer_matrix src)
        (IsSmallMatrix (IsBetween (pos 0) (pos 100)))
  unfolding random_integer_matrix
  random_integer_matrix_lem =
      let P = IsBetween (pos 0) (pos 100) in
      let R = CutIf symbolic in
      Meets-bind R (IsRepresentable (2 ^ 31)) (IsSmallMatrix P) src.int _ src.int-representable
        (λ z u.
          Meets-bind R (IsBetween (pos 1) (pos 10)) (IsSmallMatrix P)
            (src.int_in_range (pos 1) (pos 10)) _ (extent-IsBetween src)
            (λ rows h.
              Meets-bind R (IsBetween (pos 1) (pos 10)) (IsSmallMatrix P)
                (src.int_in_range (pos 1) (pos 10)) _ (extent-IsBetween src)
                (λ columns k.
                  IsSmallMatrix-of_drawn src P (pos 0) (src.int_in_range (pos 0) (pos 100))
                    (missing_ints src z) rows columns
                    (int_in_range-IsBetween src (pos 0) (pos 100) (omega arith) (omega arith)
                      (omega arith))
                    (omega arith) (omega arith) h k)))

  -- For extents whose product is positive and fits an int, RcppDeepState_NumericMatrix(row,
  -- column, low, high) returns a matrix of these extents with all elements but five in the range,
  -- unless symbolic execution cuts the path.
  pub ranged_numeric_matrix_lem :
      (r c : ℕ) (low high : ℤ)
      → 0 < r * c
      → r * c < 2 ^ 31
      → Meets
          (CutIf symbolic)
          (ranged_numeric_matrix src (pos r) (pos c) low high)
          (IsMatrix (IsDoubleBetween (src.of_int low) (src.of_int high)) r c)
  unfolding ranged_numeric_matrix
  ranged_numeric_matrix_lem r c low high h k =
      let P = IsDoubleBetween (src.of_int low) (src.of_int high) in
      Meets-bind (CutIf symbolic) (λ d. Unit {0}) (IsMatrix P r c) src.double _ src.double-returns
        (λ d u.
          IsMatrix-of_extents src P src.zero
            (src.double_in_range (src.of_int low) (src.of_int high)) (missing_doubles src d) r c
            (src.double_in_range-between (src.of_int low) (src.of_int high)) (omega arith)
            (omega arith) h k)

  -- For extents whose product is positive and fits an int, and int bounds in order,
  -- RcppDeepState_IntegerMatrix(row, column, low, high) returns a matrix of these extents with
  -- all elements but five in the range, unless symbolic execution cuts the path.
  pub ranged_integer_matrix_lem :
      (r c : ℕ) (low high : ℤ)
      → 0 < r * c
      → r * c < 2 ^ 31
      → IsRepresentable (2 ^ 31) low
      → IsRepresentable (2 ^ 31) high
      → low ≤ℤ high
      → Meets
          (CutIf symbolic)
          (ranged_integer_matrix src (pos r) (pos c) low high)
          (IsMatrix (IsBetween low high) r c)
  unfolding ranged_integer_matrix
  ranged_integer_matrix_lem r c low high h k rl rh p =
      let P = IsBetween low high in
      Meets-bind (CutIf symbolic) (IsRepresentable (2 ^ 31)) (IsMatrix P r c) src.int _
        src.int-representable
        (λ z u.
          IsMatrix-of_extents src P (pos 0) (src.int_in_range low high) (missing_ints src z) r c
            (int_in_range-IsBetween src low high rl rh p) (omega arith) (omega arith) h k)
