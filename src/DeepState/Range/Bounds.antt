-- ===== src/DeepState/Range/Bounds.antt =====
-- What the instances of DEEPSTATE_MAKE_SYMBOLIC_RANGE guarantee (inst/include/DeepState.h).
use rcpp_deep_state.Base.{
  ℕ, ◌<◌, ◌≡◌, refl, ap, ℤ, ◌≤ℤ◌, IsBetween, IsWithin, IsRepresentable, Meets, CutIf,
}
use rcpp_deep_state.DeepState.Runtime.{Runtime, Signed, half, Unsigned, modulus}
use rcpp_deep_state.DeepState.Range.{
  draw_of_signed, draw_of_unsigned, signed_in_range, unsigned_in_range,
}
use rcpp_deep_state.DeepState.Range.SignedBounds.{in_range_signed-IsWithin}
use rcpp_deep_state.DeepState.Range.Draws.{in_range_signed_comm, in_range_signed_keeps}
use rcpp_deep_state.DeepState.Range.UnsignedBounds
use rcpp_deep_state.DeepState.Range.UnsignedBounds.{in_range_unsigned-IsWithin}

module _ (rt : Runtime) where
  open rt use {using_sym_exec}

  -- For bounds of the type, in either order, every signed instance of the range function returns
  -- a value between them, for every draw, and divides by no zero; only symbolic execution can cut
  -- the path.
  pub signed_in_range-IsWithin :
      (t : Signed) (low high : ℤ)
      → IsRepresentable (half t) low
      → IsRepresentable (half t) high
      → Meets (CutIf using_sym_exec) (signed_in_range rt t low high) (IsWithin low high)
  unfolding signed_in_range
  signed_in_range-IsWithin t low high =
      in_range_signed-IsWithin (half t) using_sym_exec (draw_of_signed rt t) low high
        (rt.draw_signed_representable t)

  -- For bounds of the type, in either order, every unsigned instance of the range function
  -- returns a value between them, for every draw; only symbolic execution can cut the path.
  pub unsigned_in_range-IsWithin :
      (t : Unsigned) (low high : ℕ)
      → low < modulus t
      → high < modulus t
      → Meets
          (CutIf using_sym_exec)
          (unsigned_in_range rt t low high)
          (UnsignedBounds.IsWithin low high)
  unfolding unsigned_in_range
  unsigned_in_range-IsWithin t low high =
      in_range_unsigned-IsWithin (modulus t) using_sym_exec (draw_of_unsigned rt t) low high
        (rt.draw_unsigned_lt t)

  -- The range function does the same with its bounds exchanged.
  pub signed_in_range_comm :
      (t : Signed) (low high : ℤ) (s : rt.State)
      → signed_in_range rt t low high s ≡ signed_in_range rt t high low s
  unfolding signed_in_range
  signed_in_range_comm t low high s =
      ap (λ f. f s) (in_range_signed_comm (half t) using_sym_exec (draw_of_signed rt t) low high)

  -- A drawn value that lies between the bounds, the lower below the upper, is returned unchanged
  -- and nothing else is drawn.
  pub signed_in_range_keeps :
      (t : Signed) (low high : ℤ) (s : rt.State)
      → IsBetween low high (rt.draw_signed t s).0
      → ¬ (high ≤ℤ low)
      → signed_in_range rt t low high s ≡ draw_of_signed rt t s
  unfolding signed_in_range
  signed_in_range_keeps t low high s =
      in_range_signed_keeps (half t) using_sym_exec (draw_of_signed rt t) low high
        (rt.draw_signed t s).0 s (rt.draw_signed t s).1 refl
