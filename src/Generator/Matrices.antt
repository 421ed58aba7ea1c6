-- ===== src/Generator/Matrices.antt =====
-- The generators of matrices (inst/include/RcppDeepState.h).
pub mod Laws
pub mod Extents
pub mod Mat
use rcpp_deep_state.Base.{
  ℕ, zero, suc, ◌*◌, ◌^◌, ◌+◌, ◌<◌, ltb, ℤ, pos, negsuc, pos_part, ◌-ℤ◌, ◌*ℤ◌, wrap, List, [], ◌∷◌,
  length, replicate, set, if◌then◌else◌, Computation, pure, halt, out_of_bounds, ◌>>=◌,
}
use rcpp_deep_state.Source.{Source}
use rcpp_deep_state.Rcpp.{new_matrix, fill, inject}
use rcpp_deep_state.Generator.Vectors.{missing_doubles, missing_ints, inject_missing}

-- `rows*columns`, an `int`.
unfoldable pub count : ℤ → ℤ → ℤ
count rows columns = wrap (2 ^ 31) (rows *ℤ columns)

module _ (src : Source) where
  open src use {State, Double}

  -- The second function handed to `OneOf`: fill all, then overwrite five elements.
  unfoldable pub matrix_with_missing :
      {A : Type 0} → ℤ → Computation State A → List A → List A → Computation State (List A)
  matrix_with_missing n draw missing m = do m' ← fill n draw m; inject_missing src 5 n missing m'

  -- `RcppDeepState_NumericMatrix()`, with its extents.
  unfoldable pub random_numeric_matrix : Computation State (ℤ × ℤ × List Double)
  random_numeric_matrix = do
    d ← src.double
    rows ← src.int_in_range (pos 1) (pos 10)
    columns ← src.int_in_range (pos 1) (pos 10)
    m ← new_matrix src.zero rows columns
    let n = count rows columns
    let draw = src.double_in_range (src.of_int (pos 0)) src.huge
    m' ← src.one_of (fill n draw m ∷ matrix_with_missing n draw (missing_doubles src d) m ∷ [])
    pure (rows, columns, m')

  -- `RcppDeepState_NumericMatrix(row, column, low, high)`.
  unfoldable pub ranged_numeric_matrix : ℤ → ℤ → ℤ → ℤ → Computation State (ℤ × ℤ × List Double)
  ranged_numeric_matrix rows columns low high = do
    d ← src.double
    m ← new_matrix src.zero rows columns
    let n = count rows columns
    let draw = src.double_in_range (src.of_int low) (src.of_int high)
    m' ← src.one_of (fill n draw m ∷ matrix_with_missing n draw (missing_doubles src d) m ∷ [])
    pure (rows, columns, m')

  -- `RcppDeepState_IntegerMatrix()`.
  unfoldable pub random_integer_matrix : Computation State (ℤ × ℤ × List ℤ)
  random_integer_matrix = do
    z ← src.int
    rows ← src.int_in_range (pos 1) (pos 10)
    columns ← src.int_in_range (pos 1) (pos 10)
    m ← new_matrix (pos 0) rows columns
    let n = count rows columns
    let draw = src.int_in_range (pos 0) (pos 100)
    m' ← src.one_of (fill n draw m ∷ matrix_with_missing n draw (missing_ints src z) m ∷ [])
    pure (rows, columns, m')

  -- `RcppDeepState_IntegerMatrix(row, column, low, high)`.
  unfoldable pub ranged_integer_matrix : ℤ → ℤ → ℤ → ℤ → Computation State (ℤ × ℤ × List ℤ)
  ranged_integer_matrix rows columns low high = do
    z ← src.int
    m ← new_matrix (pos 0) rows columns
    let n = count rows columns
    let draw = src.int_in_range low high
    m' ← src.one_of (fill n draw m ∷ matrix_with_missing n draw (missing_ints src z) m ∷ [])
    pure (rows, columns, m')

  -- `rand_mat(i, j) = x`: the elements of an arma::mat of `rows` rows stand column by column, and
  -- armadillo stops at one outside.
  unfoldable pub write_element :
      ℕ → ℕ → List Double → ℕ → ℕ → Double → Computation State (List Double)
  write_element rows columns m i j x =
      if ltb i rows
      then (if ltb j columns
          then pure (set m (j * rows + i) x)
          else halt (out_of_bounds (pos j) columns))
      else halt (out_of_bounds (pos i) rows)

  -- The inner loop of `RcppDeepState_mat()`, along row `i`, with `left` columns to go.
  unfoldable pub fill_row : ℕ → ℕ → ℕ → ℕ → ℕ → List Double → Computation State (List Double)
  fill_row rows columns i zero j m = pure m
  fill_row rows columns i (suc left) j m = do
    x ← src.double
    m' ← write_element rows columns m i j x
    fill_row rows columns i left (suc j) m'

  -- The outer loop, with `left` rows to go.
  unfoldable pub fill_rows : ℕ → ℕ → ℕ → ℕ → List Double → Computation State (List Double)
  fill_rows rows columns zero i m = pure m
  fill_rows rows columns (suc left) i m = do
    m' ← fill_row rows columns i columns 0 m
    fill_rows rows columns left (suc i) m'

  -- `RcppDeepState_mat()`.
  unfoldable pub random_mat : Computation State (ℤ × ℤ × List Double)
  random_mat = do
    rows ← src.int_in_range (pos 1) (pos 10)
    columns ← src.int_in_range (pos 1) (pos 10)
    m ← new_matrix src.zero rows columns
    m' ← fill_rows (pos_part rows) (pos_part columns) (pos_part rows) 0 m
    pure (rows, columns, m')
