-- ===== src/DeepState/Range/UnsignedBounds.antt =====
-- Bounds of DEEPSTATE_MAKE_SYMBOLIC_RANGE at an unsigned type (inst/include/DeepState.h).
use native.Mathlib.Nat.{mod-eq_of_lt}
use rcpp_deep_state.Base.{
  ℕ, ◌+◌, ◌-◌, ◌%◌, ◌≤◌, ◌<◌, refl, ◌⊎◌, inl, inr, Bool, true, false, ◌&&◌, ◌||◌, arith, ltb, leb,
  Stop, Good, Meets, Meets-bind, Meets-weaken, CutIf, Computation, Bool-cases, ◌==◌,
}
use rcpp_deep_state.DeepState.Range.{
  convert_unsigned, use_draw_unsigned, draw_between_unsigned, in_range_unsigned,
}

abbrev pub IsWithin : ℕ → ℕ → ℕ → Type 0
IsWithin low high z = ((low ≤ z) × (z ≤ high)) ⊎ ((high ≤ z) × (z ≤ low))

-- The unsigned conversion: `size` is at most the number of all values, and zero only for that.
convert_unsigned-between :
    {S : Type 0} (R : Stop → Type 0) (m low high x : ℕ) (s : S)
    → high < m
    → x < m
    → low < high
    → (x < low) ⊎ (high < x)
    → Good R (λ z. (low ≤ z) × (z ≤ high)) (convert_unsigned m low high x s)
unfolding convert_unsigned
convert_unsigned-between R m low high x s hh hx p out =
    let n = high - low + 1 in
    let n_same = mod-eq_of_lt {n = n} {m = m} (omega arith) in
    let r_lt : x % n < n = omega arith in
    let sum_same = mod-eq_of_lt {n = low + x % n} {m = m} (omega arith) in
    elim (Bool-cases (n == 0)) [
      | inl z ↦ absurd (ground arith)
      | inr nz ↦ rw (n_same, nz, sum_same) (omega arith)
    ]

use_draw_unsigned-between :
    {S : Type 0} (m : ℕ) (sym : Bool) (low high x : ℕ) (s : S)
    → high < m
    → x < m
    → low < high
    → Good (CutIf sym) (λ z. (low ≤ z) × (z ≤ high)) (use_draw_unsigned m sym low high x s)
unfolding use_draw_unsigned
use_draw_unsigned-between m true low high x s hh hx p =
    elim (Bool-cases (leb low x && leb x high)) [
      | inl holds ↦ rw holds (ground arith)
      | inr fails ↦ rw fails refl
    ]
use_draw_unsigned-between m false low high x s hh hx p =
    elim (Bool-cases (ltb x low || ltb high x)) [
      | inl out ↦
          rw out (convert_unsigned-between (CutIf false) m low high x s hh hx p (ground arith))
      | inr inside ↦ rw inside (ground arith)
    ]

draw_between_unsigned-between :
    {S : Type 0} (m : ℕ) (sym : Bool) (draw : Computation S ℕ) (low high : ℕ)
    → Meets (CutIf sym) draw (λ x. x < m)
    → high < m
    → low < high
    → Meets (CutIf sym) (draw_between_unsigned m sym draw low high) (λ z. (low ≤ z) × (z ≤ high))
unfolding draw_between_unsigned
draw_between_unsigned-between m sym draw low high good hh p =
    Meets-bind (CutIf sym) (λ x. x < m) (λ z. (low ≤ z) × (z ≤ high)) draw _ good
      (λ x hx s. use_draw_unsigned-between m sym low high x s hh hx p)

-- For every value drawn.
pub in_range_unsigned-IsWithin :
    {S : Type 0} (m : ℕ) (sym : Bool) (draw : Computation S ℕ) (low high : ℕ)
    → Meets (CutIf sym) draw (λ x. x < m)
    → low < m
    → high < m
    → Meets (CutIf sym) (in_range_unsigned m sym draw low high) (IsWithin low high)
unfolding in_range_unsigned
in_range_unsigned-IsWithin m sym draw low high good hl hh s = elim (Bool-cases (ltb high low)) [
  | inl swapped ↦ rw swapped (
      Meets-weaken (CutIf sym) (CutIf sym) (λ z. (high ≤ z) × (z ≤ low)) (IsWithin low high) _
        (λ e c. c) (λ z b. inr b)
        (draw_between_unsigned-between m sym draw high low good hl (ground arith)) s)
  | inr ordered ↦ elim (Bool-cases (ltb low high)) [
    | inl apart ↦
        rw (ordered, apart)
          (Meets-weaken (CutIf sym) (CutIf sym) (λ z. (low ≤ z) × (z ≤ high)) (IsWithin low high) _
            (λ e c. c) (λ z b. inl b)
            (draw_between_unsigned-between m sym draw low high good hh (ground arith)) s)
    | inr same ↦ rw (ordered, same) (inl (ground arith))
  ]
]
