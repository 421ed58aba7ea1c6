-- ===== src/Source.antt =====
-- What inst/include/RcppDeepState.h calls: the draws of DeepState with what they promise, and R's
-- special values. The generators are written against this interface; DeepState.Supply fills it
-- with the code of the headers.
use rcpp_deep_state.Base.{
  ℕ, ◌+◌, ◌^◌, ◌≤◌, ◌<◌, ◌≡◌, Bool, true, ℤ, IsRepresentable, ◌≤ℤ◌, List, length, All, contains,
  Stop, CutIf, Computation, Meets, Meets-mono, IsBetween, IsWithin, IsBetween-of_within,
}

pub record Source : Type 1 where
  pub State : Type 0
  -- Whether paths can be cut by assumptions.
  pub symbolic : Bool
  -- `DeepState_Int` and `DeepState_IntInRange`, on values of `int`.
  pub int : Computation State ℤ
  pub int-representable : Meets (CutIf symbolic) int (IsRepresentable (2 ^ 31))
  pub int_in_range : ℤ → ℤ → Computation State ℤ
  pub int_in_range-IsWithin :
      (low high : ℤ)
      → IsRepresentable (2 ^ 31) low
      → IsRepresentable (2 ^ 31) high
      → Meets (CutIf symbolic) (int_in_range low high) (IsWithin low high)
  -- `DeepState_Char`.
  pub char : Computation State ℤ
  pub char-representable : Meets (CutIf symbolic) char (IsRepresentable (2 ^ 7))
  -- `DeepState_Double` and `DeepState_DoubleInRange`; and the same for `float`.
  pub Double : Type 0
  pub IsDoubleBetween : Double → Double → Double → Type 0
  pub double : Computation State Double
  pub double-returns : Meets (CutIf symbolic) double (λ x. Unit {0})
  pub double_in_range : Double → Double → Computation State Double
  pub double_in_range-between :
      (low high : Double)
      → Meets (CutIf symbolic) (double_in_range low high) (IsDoubleBetween low high)
  pub Float : Type 0
  pub IsFloatBetween : Float → Float → Float → Type 0
  pub float : Computation State Float
  pub float-returns : Meets (CutIf symbolic) float (λ x. Unit {0})
  pub float_in_range : Float → Float → Computation State Float
  pub float_in_range-between :
      (low high : Float)
      → Meets (CutIf symbolic) (float_in_range low high) (IsFloatBetween low high)
  -- `OneOf` of functions, and of an array.
  pub one_of : {A : Type 0} → List (Computation State A) → Computation State A
  pub one_of-Meets :
      {A : Type 0} (R : Stop → Type 0) (P : A → Type 0) (funcs : List (Computation State A))
      → ((e : Stop) → CutIf symbolic e → R e)
      → 0 < length funcs
      → length funcs < 2 ^ 32
      → All (λ f. Meets R f P) funcs
      → Meets R (one_of funcs) P
  pub one_of_array : {A : Type 0} → List A → Computation State A
  pub one_of_array-All :
      {A : Type 0} (P : A → Type 0) (xs : List A)
      → 0 < length xs
      → length xs < 2 ^ 31
      → All P xs
      → Meets (CutIf symbolic) (one_of_array xs) P
  -- `DeepState_CStr_C` and `DeepState_CStrUpToLen`, with a set of allowed characters.
  pub c_str : ℕ → List ℕ → Computation State (List ℕ)
  pub c_str_lem :
      (n : ℕ) (allowed : List ℕ)
      → 0 < length allowed
      → Meets
          (CutIf symbolic)
          (c_str n allowed)
          (λ str. (length str ≡ n) × All (λ c. contains allowed c ≡ true) str)
  pub c_str_up_to_len : ℕ → List ℕ → Computation State (List ℕ)
  pub c_str_up_to_len_lem :
      (n : ℕ) (allowed : List ℕ)
      → 0 < length allowed
      → n + 1 < 2 ^ 32
      → Meets
          (CutIf symbolic)
          (c_str_up_to_len n allowed)
          (λ str. (length str ≤ n) × All (λ c. contains allowed c ≡ true) str)
  -- The conversion of an `int`, the literal 1.7E308, and R's constants.
  pub of_int : ℤ → Double
  pub zero : Double
  pub huge : Double
  pub nan : Double
  pub pos_inf : Double
  pub neg_inf : Double
  pub na_real : Double

module _ (src : Source) where
  open src use {symbolic, int_in_range}

  -- The range in the usual order of its bounds.
  pub int_in_range-IsBetween :
      (low high : ℤ)
      → IsRepresentable (2 ^ 31) low
      → IsRepresentable (2 ^ 31) high
      → low ≤ℤ high
      → Meets (CutIf symbolic) (int_in_range low high) (IsBetween low high)
  int_in_range-IsBetween low high rl rh p =
      Meets-mono (CutIf symbolic) (IsWithin low high) (IsBetween low high) (int_in_range low high)
        (λ z. IsBetween-of_within low high z p) (src.int_in_range-IsWithin low high rl rh)
