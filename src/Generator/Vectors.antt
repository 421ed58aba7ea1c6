-- ===== src/Generator/Vectors.antt =====
-- The generators of numeric and integer vectors (inst/include/RcppDeepState.h). The two functions
-- that each hands to `OneOf` fill the vector, and fill it and then overwrite some elements.
pub mod Laws
pub mod Empty
use rcpp_deep_state.Base.{
  ℕ, ◌^◌, ◌-◌, ℤ, pos, negsuc, ◌-ℤ◌, List, [], ◌∷◌, Computation, pure, ◌>>=◌,
}
use rcpp_deep_state.Source.{Source}
use rcpp_deep_state.Rcpp.{new_vector, fill, inject}

-- `NA_INTEGER` is the least `int`.
abbrev pub na_integer : ℤ
na_integer = negsuc (2 ^ 31 - 1)

module _ (src : Source) where
  open src use {State, Double}

  -- `missing_values` of the numeric generators, around the double that is drawn for it.
  abbrev pub missing_doubles : Double → List Double
  missing_doubles d = d ∷ src.nan ∷ src.pos_inf ∷ src.neg_inf ∷ src.na_real ∷ []

  -- `missing_values` of the integer generators.
  abbrev pub missing_ints : ℤ → List ℤ
  missing_ints z = z ∷ na_integer ∷ []

  -- `v[DeepState_IntInRange(0, size - 1)] = OneOf(missing_values);`, some rounds of it.
  unfoldable pub inject_missing :
      {A : Type 0} → ℕ → ℤ → List A → List A → Computation State (List A)
  inject_missing rounds size missing =
      inject rounds (src.int_in_range (pos 0) (size -ℤ pos 1)) (src.one_of_array missing)

  -- The second function of the numeric vectors: the loop stops one short of `size`.
  unfoldable pub numeric_with_missing :
      ℤ → Computation State Double → List Double → List Double → Computation State (List Double)
  numeric_with_missing size draw missing v = do
    v' ← fill (size -ℤ pos 1) draw v
    inject_missing 5 size missing v'

  -- `RcppDeepState_NumericVector()`.
  unfoldable pub random_numeric_vector : Computation State (List Double)
  random_numeric_vector = do
    size ← src.int_in_range (pos 0) (pos 100)
    d ← src.double
    v ← new_vector src.zero size
    src.one_of
        (fill size src.double v ∷ numeric_with_missing size src.double (missing_doubles d) v ∷ [])

  -- `RcppDeepState_NumericVector(size, low, high)`.
  unfoldable pub ranged_numeric_vector : ℤ → ℤ → ℤ → Computation State (List Double)
  ranged_numeric_vector size low high = do
    let draw = src.double_in_range (src.of_int low) (src.of_int high)
    d ← src.double
    v ← new_vector src.zero size
    src.one_of (fill size draw v ∷ numeric_with_missing size draw (missing_doubles d) v ∷ [])

  -- The second function of the integer vectors.
  unfoldable pub integer_with_missing :
      ℤ → Computation State ℤ → List ℤ → List ℤ → Computation State (List ℤ)
  integer_with_missing size draw missing v = do
    v' ← fill size draw v
    inject_missing 2 size missing v'

  -- `RcppDeepState_IntegerVector()`.
  unfoldable pub random_integer_vector : Computation State (List ℤ)
  random_integer_vector = do
    size ← src.int_in_range (pos 0) (pos 100)
    z ← src.int
    v ← new_vector (pos 0) size
    src.one_of (fill size src.int v ∷ integer_with_missing size src.int (missing_ints z) v ∷ [])

  -- `RcppDeepState_IntegerVector(size, low, high)`.
  unfoldable pub ranged_integer_vector : ℤ → ℤ → ℤ → Computation State (List ℤ)
  ranged_integer_vector size low high = do
    let draw = src.int_in_range low high
    z ← src.int
    v ← new_vector (pos 0) size
    src.one_of (fill size draw v ∷ integer_with_missing size draw (missing_ints z) v ∷ [])
