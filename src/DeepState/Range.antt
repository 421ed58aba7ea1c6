-- ===== src/DeepState/Range.antt =====
-- DEEPSTATE_MAKE_SYMBOLIC_RANGE of inst/include/DeepState.h: an integer drawn from an inclusive
-- range. C's sums are exact here and wrap where they are stored in a `tname` (an `int` sum that
-- overflows is undefined in C: it is given the wrapped value). What the code prints under
-- FLAGS_verbose_reads is left out.
pub mod SignedBounds
pub mod UnsignedBounds
pub mod Draws
pub mod Bounds
use rcpp_deep_state.Base.{
  ℕ, ◌+◌, ◌-◌, ◌%◌, ◌≡◌, Bool, true, false, ◌&&◌, ◌||◌, ℤ, pos, ◌+ℤ◌, ◌-ℤ◌, ltb_ℤ, leb_ℤ, nat_abs,
  rem_ℤ, wrap, ltb, leb, ◌==◌, if◌then◌else◌, Computation, pure, halt, ◌>>=◌, ◌>>◌, assume_failed,
  divide_by_zero,
}
use rcpp_deep_state.DeepState.Runtime.{Runtime, Signed, int, half, Unsigned, uint, modulus}

-- `DeepState_Assume(expr)`: a path on which the condition does not hold goes no further.
abbrev pub assume : {S : Type 0} → Bool → Computation S (Unit {0})
assume true = pure tt
assume false = halt assume_failed

-- `size`: the number of values of the range, stored in a `tname`.
unfoldable pub span : ℕ → ℤ → ℤ → ℤ
unfolding ◌+ℤ◌ ◌-ℤ◌ wrap
span h low high = wrap h (high -ℤ low +ℤ pos 1)

-- `if (x < 0) x = -x; if (x < 0) x = 0;`: the negative of the least value is that value again.
unfoldable pub magnitude : ℕ → ℤ → ℤ
unfolding ◌-ℤ◌ wrap
magnitude h x =
    let y = if ltb_ℤ x (pos 0) then wrap h (pos 0 -ℤ x) else x in
    if ltb_ℤ y (pos 0) then pos 0 else y

-- The conversion of an out-of-range value, `low + (x % size)`.
unfoldable pub convert_signed : {S : Type 0} → ℕ → ℤ → ℤ → ℤ → Computation S ℤ
unfolding span magnitude ◌+ℤ◌ rem_ℤ wrap
convert_signed h low high x =
    let n = span h low high in
    if nat_abs n == 0 then halt divide_by_zero else pure (wrap h (low +ℤ rem_ℤ (magnitude h x) n))

-- The code from the draw on: an assumption under symbolic execution, and else a conversion.
unfoldable pub use_draw_signed : {S : Type 0} → ℕ → Bool → ℤ → ℤ → ℤ → Computation S ℤ
unfolding convert_signed
use_draw_signed h sym low high x =
    if sym
    then (assume (leb_ℤ low x && leb_ℤ x high) >> pure x)
    else if ltb_ℤ x low || ltb_ℤ high x
    then convert_signed h low high x
    else pure x

-- The body after `low > high` and `low == high` are out of the way.
unfoldable pub draw_between_signed :
    {S : Type 0} → ℕ → Bool → Computation S ℤ → ℤ → ℤ → Computation S ℤ
unfolding use_draw_signed
draw_between_signed h sym draw low high = do x ← draw; use_draw_signed h sym low high x

-- The whole function. The recursive call has its bounds in order, so its first test fails.
unfoldable pub in_range_signed : {S : Type 0} → ℕ → Bool → Computation S ℤ → ℤ → ℤ → Computation S ℤ
unfolding draw_between_signed
in_range_signed h sym draw low high =
    if ltb_ℤ high low
    then draw_between_signed h sym draw high low
    else if ltb_ℤ low high
    then draw_between_signed h sym draw low high
    else pure low

unfoldable pub convert_unsigned : {S : Type 0} → ℕ → ℕ → ℕ → ℕ → Computation S ℕ
convert_unsigned m low high x =
    let n = (high - low + 1) % m in if n == 0 then halt divide_by_zero else pure ((low + x % n) % m)

unfoldable pub use_draw_unsigned : {S : Type 0} → ℕ → Bool → ℕ → ℕ → ℕ → Computation S ℕ
unfolding convert_unsigned
use_draw_unsigned m sym low high x =
    if sym
    then (assume (leb low x && leb x high) >> pure x)
    else if ltb x low || ltb high x
    then convert_unsigned m low high x
    else pure x

unfoldable pub draw_between_unsigned :
    {S : Type 0} → ℕ → Bool → Computation S ℕ → ℕ → ℕ → Computation S ℕ
unfolding use_draw_unsigned
draw_between_unsigned m sym draw low high = do x ← draw; use_draw_unsigned m sym low high x

-- The macro at an unsigned type, where `x < 0` never holds.
unfoldable pub in_range_unsigned :
    {S : Type 0} → ℕ → Bool → Computation S ℕ → ℕ → ℕ → Computation S ℕ
unfolding draw_between_unsigned
in_range_unsigned m sym draw low high =
    if ltb high low
    then draw_between_unsigned m sym draw high low
    else if ltb low high
    then draw_between_unsigned m sym draw low high
    else pure low

module _ (rt : Runtime) where
  open rt use {State, using_sym_exec, draw_signed, draw_unsigned}

  abbrev pub draw_of_signed : Signed → Computation State ℤ
  draw_of_signed t s = pure (draw_signed t s).0 (draw_signed t s).1

  abbrev pub draw_of_unsigned : Unsigned → Computation State ℕ
  draw_of_unsigned t s = pure (draw_unsigned t s).0 (draw_unsigned t s).1

  -- `DeepState_IntInRange` and the other signed instances.
  unfoldable pub signed_in_range : Signed → ℤ → ℤ → Computation State ℤ
  unfolding in_range_signed
  signed_in_range t = in_range_signed (half t) using_sym_exec (draw_of_signed t)

  -- `DeepState_UIntInRange` and the other unsigned instances.
  unfoldable pub unsigned_in_range : Unsigned → ℕ → ℕ → Computation State ℕ
  unfolding in_range_unsigned
  unsigned_in_range t = in_range_unsigned (modulus t) using_sym_exec (draw_of_unsigned t)
