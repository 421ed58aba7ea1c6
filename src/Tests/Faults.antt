-- ===== src/Tests/Faults.antt =====
-- Runs of the generators of inst/include/RcppDeepState.h on tapes: one that returns, and those that
-- show what the results say of their failures.
use rcpp_deep_state.Base.{◌≡◌, refl, false, pos, negsuc, ◌-ℤ◌, [], ◌∷◌, stop, ok, out_of_bounds}
use rcpp_deep_state.Tape.{source, tape}
use rcpp_deep_state.DeepState.Range.{signed_in_range}
use rcpp_deep_state.DeepState.Runtime.{int, char}
use rcpp_deep_state.DeepState.Choice.{one_of, one_of_array}
use rcpp_deep_state.Rcpp.{fill, inject}
use rcpp_deep_state.Generator.Vectors.{
  random_numeric_vector, numeric_with_missing, inject_missing, ranged_numeric_vector,
  ranged_integer_vector, integer_with_missing,
}

-- A draw outside the range is converted, in a type whose `size` wraps too.
convert_out_of_range :
    signed_in_range (tape false) int (pos 0) (pos 9) (negsuc 26 ∷ []) ≡ ok (pos 7, [])
unfolding signed_in_range
convert_out_of_range = refl

convert_wrapped :
    signed_in_range (tape false) char (negsuc 127) (pos 9) (pos 120 ∷ []) ≡ ok (negsuc 125, [])
unfolding signed_in_range
convert_wrapped = refl

-- Size 0 and the second function: an element at index -1 of an empty vector is written.
numeric_vector_faults :
    random_numeric_vector (source false) (pos 0 ∷ pos 5 ∷ pos 1 ∷ pos 2 ∷ negsuc 0 ∷ [])
    ≡ stop (out_of_bounds (negsuc 0) 0)
unfolding random_numeric_vector numeric_with_missing inject_missing signed_in_range one_of
    one_of_array fill inject ◌-ℤ◌
numeric_vector_faults = refl

-- The second function leaves the last element at zero, outside the range 5 .. 9.
last_element_unset :
    ranged_numeric_vector (source false) (pos 2) (pos 5) (pos 9) (pos 1 ∷ pos 1 ∷ [])
    ≡ ok (pos 1 ∷ pos 0 ∷ [], [])
unfolding ranged_numeric_vector numeric_with_missing inject_missing signed_in_range one_of
    one_of_array fill inject ◌-ℤ◌
last_element_unset = refl

-- An `int` that was drawn without a range is put among the elements of a range 5 .. 9.
unranged_element :
    ranged_integer_vector (source false) (pos 1) (pos 5) (pos 9) (pos 77 ∷ pos 1 ∷ pos 6 ∷ [])
    ≡ ok (pos 77 ∷ [], [])
unfolding ranged_integer_vector integer_with_missing inject_missing signed_in_range one_of
    one_of_array fill inject ◌-ℤ◌
unranged_element = refl
