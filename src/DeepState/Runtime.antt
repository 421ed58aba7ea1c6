-- ===== src/DeepState/Runtime.antt =====
-- What inst/include/DeepState.h declares `extern` and the DeepState runtime library defines: the
-- draws, the queries of a symbolic executor, and what the headers say of each. `State` is all that
-- these functions read and write: the input buffer with its index, and the executor's constraints.
use rcpp_deep_state.Base.{
  ℕ, ◌^◌, ◌≤◌, ◌<◌, ◌≡◌, ℤ, Bool, true, List, length, All, contains, Option, some, IsRepresentable,
}

-- The signed and the unsigned instances of DEEPSTATE_MAKE_SYMBOLIC_RANGE, by their `Tname`.
pub data Signed : Type 0 where
  long int64 int short char : Signed

pub data Unsigned : Type 0 where
  size uint64 uint ushort uchar : Unsigned

-- A signed type has the values -half .. half - 1 (`long` of LP64, `char` signed).
abbrev pub half : Signed → ℕ
half long = 2 ^ 63
half int64 = 2 ^ 63
half int = 2 ^ 31
half short = 2 ^ 15
half char = 2 ^ 7

-- An unsigned type has the values 0 .. modulus - 1.
abbrev pub modulus : Unsigned → ℕ
modulus size = 2 ^ 64
modulus uint64 = 2 ^ 64
modulus uint = 2 ^ 32
modulus ushort = 2 ^ 16
modulus uchar = 2 ^ 8

pub record Runtime : Type 1 where
  pub State : Type 0
  -- DeepState_UsingSymExec, which does not change during a run.
  pub using_sym_exec : Bool
  -- DeepState_Int and its siblings return a value of their type.
  pub draw_signed : Signed → State → ℤ × State
  pub draw_signed_representable :
      (t : Signed) (s : State) → IsRepresentable (half t) (draw_signed t s).0
  pub draw_unsigned : Unsigned → State → ℕ × State
  pub draw_unsigned_lt : (t : Unsigned) (s : State) → (draw_unsigned t s).0 < modulus t
  pub is_symbolic_uint : ℕ → State → Bool
  -- "Returns the minimum satisfiable value for a given symbolic value": at most that value.
  pub min_uint : ℕ → State → ℕ × State
  pub min_uint-le : (v : ℕ) (s : State) → (min_uint v s).0 ≤ v
  -- "Return a symbolic C string of strlen `len`", "with only chars in allowed, if `allowed` is
  -- non-null".
  pub c_str : ℕ → Option (List ℕ) → State → List ℕ × State
  pub length-c_str :
      (n : ℕ) (allowed : Option (List ℕ)) (s : State) → length (c_str n allowed s).0 ≡ n
  pub c_str_allowed :
      (n : ℕ) (allowed : List ℕ) (s : State)
      → 0 < length allowed
      → All (λ c. contains allowed c ≡ true) (c_str n (some allowed) s).0
  -- Floating point values, with what "in range" means for them (the bounds in either order).
  pub Double : Type 0
  pub IsDoubleBetween : Double → Double → Double → Type 0
  pub draw_double : State → Double × State
  pub double_in_range : Double → Double → State → Double × State
  pub double_in_range_between :
      (low high : Double) (s : State) → IsDoubleBetween low high (double_in_range low high s).0
  pub Float : Type 0
  pub IsFloatBetween : Float → Float → Float → Type 0
  pub draw_float : State → Float × State
  pub float_in_range : Float → Float → State → Float × State
  pub float_in_range_between :
      (low high : Float) (s : State) → IsFloatBetween low high (float_in_range low high s).0
