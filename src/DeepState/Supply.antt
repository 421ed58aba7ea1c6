-- ===== src/DeepState/Supply.antt =====
-- The headers as a `Source`: each call of inst/include/RcppDeepState.h is answered by the code of
-- inst/include/DeepState.h and inst/include/DeepState.hpp over a `Runtime`, and each promise of
-- the interface by a theorem about that code.
use rcpp_deep_state.Base.{ℤ, some, pure}
use rcpp_deep_state.Source.{Source}
use rcpp_deep_state.DeepState.Runtime.{Runtime, int, char}
use rcpp_deep_state.DeepState.Range.{signed_in_range, draw_of_signed}
use rcpp_deep_state.DeepState.Range.Bounds.{signed_in_range-IsWithin}
use rcpp_deep_state.DeepState.Choice.{one_of, one_of_array, c_str, c_str_up_to_len}
use rcpp_deep_state.DeepState.Choice.Laws.{one_of-Meets, one_of_array-All, c_str_up_to_len_lem}

-- R's constants and conversions, over the type of doubles.
pub record Constants (Double : Type 0) : Type 0 where
  pub of_int : ℤ → Double
  pub zero : Double
  pub huge : Double
  pub nan : Double
  pub pos_inf : Double
  pub neg_inf : Double
  pub na_real : Double

abbrev pub supply : (rt : Runtime) → Constants rt.Double → Source
supply rt k = record {
  State = rt.State;
  symbolic = rt.using_sym_exec;
  int = draw_of_signed rt int;
  int-representable = rt.draw_signed_representable int;
  int_in_range = signed_in_range rt int;
  int_in_range-IsWithin = signed_in_range-IsWithin rt int;
  char = draw_of_signed rt char;
  char-representable = rt.draw_signed_representable char;
  Double = rt.Double;
  IsDoubleBetween = rt.IsDoubleBetween;
  double = λ s. pure (rt.draw_double s).0 (rt.draw_double s).1;
  double-returns = λ s. tt;
  double_in_range =
      λ low high s. pure (rt.double_in_range low high s).0 (rt.double_in_range low high s).1;
  double_in_range-between = rt.double_in_range_between;
  Float = rt.Float;
  IsFloatBetween = rt.IsFloatBetween;
  float = λ s. pure (rt.draw_float s).0 (rt.draw_float s).1;
  float-returns = λ s. tt;
  float_in_range =
      λ low high s. pure (rt.float_in_range low high s).0 (rt.float_in_range low high s).1;
  float_in_range-between = rt.float_in_range_between;
  one_of = λ {A}. one_of rt;
  one_of-Meets = λ {A}. one_of-Meets rt;
  one_of_array = λ {A}. one_of_array rt;
  one_of_array-All = λ {A}. one_of_array-All rt;
  c_str = λ n allowed. c_str rt n (some allowed);
  c_str_lem = λ n allowed h s. (rt.length-c_str n (some allowed) s, rt.c_str_allowed n allowed s h);
  c_str_up_to_len = λ n allowed. c_str_up_to_len rt n (some allowed);
  c_str_up_to_len_lem = c_str_up_to_len_lem rt;
  of_int = k.of_int;
  zero = k.zero;
  huge = k.huge;
  nan = k.nan;
  pos_inf = k.pos_inf;
  neg_inf = k.neg_inf;
  na_real = k.na_real;
}
