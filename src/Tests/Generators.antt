-- ===== src/Tests/Generators.antt =====
-- The results on inst/include/RcppDeepState.h at concrete input.
use rcpp_deep_state.Base.{
  ◌≤◌, ◌≡◌, false, arith, ℤ, pos, negsuc, IsBetween, [], ◌∷◌, length, Good, CutIf,
}
use rcpp_deep_state.Tape.{source}
use rcpp_deep_state.Generator.Vectors.{
  missing_ints, inject_missing, random_numeric_vector, ranged_numeric_vector, ranged_integer_vector,
}
use rcpp_deep_state.Generator.Vectors.Laws.{
  IsFilled, ranged_numeric_vector_lem, ranged_integer_vector_lem,
}
use rcpp_deep_state.Generator.Vectors.Empty.{
  FaultsIfEmpty, inject_missing-empty, random_numeric_vector_lem,
}
use rcpp_deep_state.Generator.Matrices.{random_numeric_matrix, random_mat}
use rcpp_deep_state.Generator.Matrices.Laws.{IsSmallMatrix}
use rcpp_deep_state.Generator.Matrices.Extents.{random_numeric_matrix_lem}
use rcpp_deep_state.Generator.Matrices.Mat.{IsMat, random_mat_lem}
use rcpp_deep_state.Tape.{Tape}

abbrev sample : Tape
sample = pos 2 ∷ pos 3 ∷ pos 1 ∷ negsuc 7 ∷ pos 0 ∷ pos 5 ∷ pos 1 ∷ []

ranged_integer_vector_lem_example :
    Good
      (CutIf false)
      (IsFilled (IsBetween (negsuc 2) (pos 9)) 3 2)
      (ranged_integer_vector (source false) (pos 3) (negsuc 2) (pos 9) sample)
ranged_integer_vector_lem_example =
    ranged_integer_vector_lem (source false) 3 (negsuc 2) (pos 9) (omega arith) (omega arith)
      (omega arith) (omega arith) (omega arith) sample

ranged_numeric_vector_lem_example :
    Good
      (CutIf false)
      (IsFilled (λ (z : ℤ). z ≡ pos 5) 8 6)
      (ranged_numeric_vector (source false) (pos 8) (pos 5) (pos 9) sample)
ranged_numeric_vector_lem_example =
    ranged_numeric_vector_lem (source false) 8 (pos 5) (pos 9) (omega arith) (omega arith) sample

random_numeric_vector_lem_example :
    Good (FaultsIfEmpty false) (λ v. length v ≤ 100) (random_numeric_vector (source false) sample)
random_numeric_vector_lem_example = random_numeric_vector_lem (source false) sample

inject_missing-empty_example :
    Good
      (FaultsIfEmpty false)
      (λ v. ⊥)
      (inject_missing (source false) 2 (pos 0) (missing_ints (source false) (pos 7)) [] sample)
inject_missing-empty_example =
    inject_missing-empty (source false) 1 (missing_ints (source false) (pos 7)) (omega arith)
      (omega arith) sample

random_numeric_matrix_lem_example :
    Good
      (CutIf false)
      (IsSmallMatrix (λ (z : ℤ). z ≡ pos 0))
      (random_numeric_matrix (source false) sample)
random_numeric_matrix_lem_example = random_numeric_matrix_lem (source false) sample

random_mat_lem_example :
    Good (CutIf false) (IsMat (source false)) (random_mat (source false) sample)
random_mat_lem_example = random_mat_lem (source false) sample
