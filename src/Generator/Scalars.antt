-- ===== src/Generator/Scalars.antt =====
-- The generators of single values (inst/include/RcppDeepState.h).
use rcpp_deep_state.Base.{ℤ, Computation}
use rcpp_deep_state.Source.{Source}

module _ (src : Source) where
  open src use {State, Double, Float}

  -- `RcppDeepState_int()` and `RcppDeepState_int(low, high)`.
  unfoldable pub random_int : Computation State ℤ
  random_int = src.int

  unfoldable pub ranged_int : ℤ → ℤ → Computation State ℤ
  ranged_int low high = src.int_in_range low high

  -- `RcppDeepState_double()` and `RcppDeepState_double(low, high)`.
  unfoldable pub random_double : Computation State Double
  random_double = src.double

  unfoldable pub ranged_double : Double → Double → Computation State Double
  ranged_double low high = src.double_in_range low high

  -- `RcppDeepState_float()` and `RcppDeepState_float(low, high)`.
  unfoldable pub random_float : Computation State Float
  random_float = src.float

  unfoldable pub ranged_float : Float → Float → Computation State Float
  ranged_float low high = src.float_in_range low high

  -- `RcppDeepState_char()`.
  unfoldable pub random_char : Computation State ℤ
  random_char = src.char
