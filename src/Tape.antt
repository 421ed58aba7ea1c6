-- ===== src/Tape.antt =====
-- A runtime that answers every call from a tape of integers: a draw takes the next one and wraps it
-- into its type, and an empty tape gives zeros. It shows that what `Runtime` and `Source` ask for can
-- be met, and runs the tests.
use native.Mathlib.Nat.{mod-lt, le_refl}
use rcpp_deep_state.Base.{
  ℕ, ◌+◌, ◌%◌, ◌<◌, ◌≡◌, refl, Bool, true, arith, ℤ, pos, negsuc, pos_part, wrap, IsRepresentable,
  Option, none, some, List, [], ◌∷◌, length, replicate, length-replicate, All, All-replicate,
  contains,
}
use rcpp_deep_state.DeepState.Runtime.{Runtime, Signed, half, Unsigned, modulus}
use rcpp_deep_state.DeepState.Supply.{Constants, supply}
use rcpp_deep_state.Source.{Source}

abbrev pub Tape : Type 0
Tape = List ℤ

abbrev pub head : Tape → ℤ
head [] = pos 0
head (z ∷ t) = z

abbrev pub rest : Tape → Tape
rest [] = []
rest (z ∷ t) = t

pub wrap-IsRepresentable : (h : ℕ) (z : ℤ) → 0 < h → IsRepresentable h (wrap h z)
unfolding wrap
wrap-IsRepresentable h (pos n) p = ground (arith, mod-lt n {m = h + h} (omega arith))
wrap-IsRepresentable h (negsuc n) p = ground (arith, mod-lt n {m = h + h} (omega arith))

pub half_pos : (t : Signed) → 0 < half t
half_pos Signed.long = omega arith
half_pos Signed.int64 = omega arith
half_pos Signed.int = omega arith
half_pos Signed.short = omega arith
half_pos Signed.char = omega arith

pub modulus_pos : (t : Unsigned) → 0 < modulus t
modulus_pos Unsigned.size = omega arith
modulus_pos Unsigned.uint64 = omega arith
modulus_pos Unsigned.uint = omega arith
modulus_pos Unsigned.ushort = omega arith
modulus_pos Unsigned.uchar = omega arith

-- Strings repeat the first allowed character.
abbrev pub first : Option (List ℕ) → ℕ
first none = 1
first (some []) = 1
first (some (c ∷ cs)) = c

pub replicate_allowed :
    (n : ℕ) (allowed : List ℕ)
    → 0 < length allowed
    → All (λ c. contains allowed c ≡ true) (replicate n (first (some allowed)))
replicate_allowed n [] h = absurd (omega arith)
replicate_allowed n (c ∷ cs) h = All-replicate (λ d. contains (c ∷ cs) d ≡ true) n c (ground arith)

-- Doubles and floats are integers here, and a range gives its lower bound.
abbrev pub tape : Bool → Runtime
tape sym = record {
  State = Tape;
  using_sym_exec = sym;
  draw_signed = λ t s. (wrap (half t) (head s), rest s);
  draw_signed_representable = λ t s. wrap-IsRepresentable (half t) (head s) (half_pos t);
  draw_unsigned = λ t s. (pos_part (head s) % modulus t, rest s);
  draw_unsigned_lt = λ t s. mod-lt (pos_part (head s)) (modulus_pos t);
  is_symbolic_uint = λ v s. sym;
  min_uint = λ v s. (v, s);
  min_uint-le = λ v s. le_refl v;
  c_str = λ n allowed s. (replicate n (first allowed), s);
  length-c_str = λ n allowed s. length-replicate n (first allowed);
  c_str_allowed = λ n allowed s. replicate_allowed n allowed;
  Double = ℤ;
  IsDoubleBetween = λ low high z. z ≡ low;
  draw_double = λ s. (head s, rest s);
  double_in_range = λ low high s. (low, s);
  double_in_range_between = λ low high s. refl;
  Float = ℤ;
  IsFloatBetween = λ low high z. z ≡ low;
  draw_float = λ s. (head s, rest s);
  float_in_range = λ low high s. (low, s);
  float_in_range_between = λ low high s. refl;
}

-- R's special values as integers that the tests do not use otherwise.
abbrev pub constants : Constants ℤ
constants = record {
  of_int = λ z. z;
  zero = pos 0;
  huge = pos 1_000_000;
  nan = negsuc 1_000_000;
  pos_inf = pos 1_000_001;
  neg_inf = negsuc 1_000_001;
  na_real = negsuc 1_000_002;
}

abbrev pub source : Bool → Source
source sym = supply (tape sym) constants
