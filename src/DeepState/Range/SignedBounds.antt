-- ===== src/DeepState/Range/SignedBounds.antt =====
-- Bounds of DEEPSTATE_MAKE_SYMBOLIC_RANGE at a signed type (inst/include/DeepState.h).
use native.Mathlib.Decide.{dec_lt}
use native.Mathlib.Nat.{mod-le}
use rcpp_deep_state.Base.{
  ℕ, suc, ◌+◌, ◌-◌, ◌%◌, ◌≤◌, ◌<◌, ◌≡◌, refl, ap, ◌∙◌, ◌⊎◌, inl, inr, Bool, true, false, ◌&&◌, ◌||◌,
  arith, ℤ, pos, negsuc, ◌≤ℤ◌, IsBetween, IsWithin, ◌+ℤ◌, ◌-ℤ◌, ltb_ℤ, leb_ℤ, rem_ℤ, wrap, nat_abs,
  pos_part, neg_part, int_laws, IsRepresentable, wrap_of_representable, wrap_above, Stop, Good,
  Meets, Meets-bind, Meets-weaken, CutIf, Computation, Bool-cases, ◌==◌,
}
use rcpp_deep_state.DeepState.Range.{
  span, magnitude, convert_signed, use_draw_signed, draw_between_signed, in_range_signed,
}

-- The magnitude of a value of the type is a nonnegative value of the type.
magnitude_lem :
    (h : ℕ) (x : ℤ)
    → IsRepresentable h x
    → (neg_part (magnitude h x) ≡ 0) × (pos_part (magnitude h x) < h)
unfolding magnitude ◌-ℤ◌
magnitude_lem h (pos n) r = ground arith
magnitude_lem h (negsuc n) r = elim (dec_lt (suc n) h) [
  | yes p ↦ ground (arith, wrap_of_representable h (pos (suc n)) (omega arith))
  | no p ↦ ground (arith, wrap_above h (suc n) (omega arith) (omega arith))
]

-- The difference of two values in order.
difference_lem :
    (low high : ℤ)
    → low ≤ℤ high
    → (d : ℕ) × (high -ℤ low +ℤ pos 1 ≡ pos (suc d))
      × (pos_part high + neg_part low ≡ pos_part low + neg_part high + d)
unfolding ◌-ℤ◌ ◌+ℤ◌
difference_lem low high p = (pos_part (high -ℤ low), ground arith, ground arith)

-- The remainder taken by `size` does not pass the end of the range, also where `size` has wrapped
-- to a negative number; and `size` is zero only for the range of all values.
remainder_lem :
    (h d y : ℕ) {n : ℤ}
    → n ≡ wrap h (pos (suc d))
    → y < h
    → suc d < h + h
    → (0 < nat_abs n) × (y % nat_abs n ≤ d)
remainder_lem h d y {n} e hy hd = elim (dec_lt (suc d) h) [
  | yes p ↦ rw (e, wrap_of_representable h (pos (suc d)) (omega arith)) (omega arith, omega arith)
  | no p ↦
      rw (e, wrap_above h (suc d) (omega arith) hd)
        (omega arith, omega (arith, mod-le y (h + h - suc d - 1 + 1)))
]

-- A nonnegative dividend has a nonnegative remainder.
rem_lem : (y n : ℤ) → neg_part y ≡ 0 → rem_ℤ y n ≡ pos (pos_part y % nat_abs n)
unfolding rem_ℤ
rem_lem (pos y) n e = refl
rem_lem (negsuc y) n e = absurd (omega arith)

-- A step of at most `d` above `low` stays in the range, and is a value of the type.
step_lem :
    (h k d : ℕ) (low high : ℤ)
    → IsRepresentable h low
    → IsRepresentable h high
    → pos_part high + neg_part low ≡ pos_part low + neg_part high + d
    → k ≤ d
    → (wrap h (low +ℤ pos k) ≡ low +ℤ pos k) × IsBetween low high (low +ℤ pos k)
step_lem h k d low high rl rh e p =
    (wrap_of_representable h (low +ℤ pos k) (omega int_laws), omega int_laws)

span_lem : (h : ℕ) (low high : ℤ) → span h low high ≡ wrap h (high -ℤ low +ℤ pos 1)
unfolding span
span_lem h low high = refl

-- The conversion succeeds with a value of the range, once `size` and the magnitude are known.
convert_signed_of_parts :
    {S : Type 0} (R : Stop → Type 0) (h d : ℕ) (low high x : ℤ) (s : S)
    → IsRepresentable h low
    → IsRepresentable h high
    → pos_part high + neg_part low ≡ pos_part low + neg_part high + d
    → neg_part (magnitude h x) ≡ 0
    → (0 < nat_abs (span h low high)) × (pos_part (magnitude h x) % nat_abs (span h low high) ≤ d)
    → Good R (IsBetween low high) (convert_signed h low high x s)
unfolding convert_signed
convert_signed_of_parts R h d low high x s rl rh apart y_pos (nonzero, small) =
    let n = span h low high in
    let (same, between) =
      step_lem h (pos_part (magnitude h x) % nat_abs n) d low high rl rh apart small in
    elim (Bool-cases (nat_abs n == 0)) [
      | inl z ↦ absurd (ground arith)
      | inr nz ↦ rw (nz, rem_lem (magnitude h x) n y_pos, same) between
    ]

-- The conversion puts any value of the type into the range.
convert_signed-IsBetween :
    {S : Type 0} (R : Stop → Type 0) (h : ℕ) (low high x : ℤ) (s : S)
    → IsRepresentable h low
    → IsRepresentable h high
    → IsRepresentable h x
    → ¬ (high ≤ℤ low)
    → (¬ (low ≤ℤ x)) ⊎ (¬ (x ≤ℤ high))
    → Good R (IsBetween low high) (convert_signed h low high x s)
convert_signed-IsBetween R h low high x s rl rh rx p out =
    let (d, span_is, apart) = difference_lem low high (omega arith) in
    let (y_pos, y_lt) = magnitude_lem h x rx in
    convert_signed_of_parts R h d low high x s rl rh apart y_pos (
      remainder_lem h d (pos_part (magnitude h x)) (span_lem h low high ∙ ap (wrap h) span_is) y_lt
        (omega arith))

-- What becomes of the value drawn.
use_draw-IsBetween :
    {S : Type 0} (h : ℕ) (sym : Bool) (low high x : ℤ) (s : S)
    → IsRepresentable h low
    → IsRepresentable h high
    → IsRepresentable h x
    → ¬ (high ≤ℤ low)
    → Good (CutIf sym) (IsBetween low high) (use_draw_signed h sym low high x s)
unfolding use_draw_signed
use_draw-IsBetween h true low high x s rl rh rx p =
    elim (Bool-cases (leb_ℤ low x && leb_ℤ x high)) [
      | inl holds ↦ rw holds (ground arith)
      | inr fails ↦ rw fails refl
    ]
use_draw-IsBetween h false low high x s rl rh rx p =
    elim (Bool-cases (ltb_ℤ x low || ltb_ℤ high x)) [
      | inl out ↦
          rw out (convert_signed-IsBetween (CutIf false) h low high x s rl rh rx p (ground arith))
      | inr inside ↦ rw inside (ground arith)
    ]

-- What a draw from between two bounds returns, however they are compared afterwards.
draw_between_signed-IsBetween :
    {S : Type 0} (h : ℕ) (sym : Bool) (draw : Computation S ℤ) (low high : ℤ)
    → Meets (CutIf sym) draw (IsRepresentable h)
    → IsRepresentable h low
    → IsRepresentable h high
    → ¬ (high ≤ℤ low)
    → Meets (CutIf sym) (draw_between_signed h sym draw low high) (IsBetween low high)
unfolding draw_between_signed
draw_between_signed-IsBetween h sym draw low high good rl rh p =
    Meets-bind (CutIf sym) (IsRepresentable h) (IsBetween low high) draw _ good
      (λ x rx s. use_draw-IsBetween h sym low high x s rl rh rx p)

-- For every value drawn.
pub in_range_signed-IsWithin :
    {S : Type 0} (h : ℕ) (sym : Bool) (draw : Computation S ℤ) (low high : ℤ)
    → Meets (CutIf sym) draw (IsRepresentable h)
    → IsRepresentable h low
    → IsRepresentable h high
    → Meets (CutIf sym) (in_range_signed h sym draw low high) (IsWithin low high)
unfolding in_range_signed
in_range_signed-IsWithin h sym draw low high good rl rh s = elim (Bool-cases (ltb_ℤ high low)) [
  | inl swapped ↦ rw swapped (
      Meets-weaken (CutIf sym) (CutIf sym) (IsBetween high low) (IsWithin low high) _ (λ e c. c)
        (λ z b. inr b) (draw_between_signed-IsBetween h sym draw high low good rh rl (ground arith))
        s)
  | inr ordered ↦ elim (Bool-cases (ltb_ℤ low high)) [
    | inl apart ↦
        rw (ordered, apart)
          (Meets-weaken (CutIf sym) (CutIf sym) (IsBetween low high) (IsWithin low high) _
            (λ e c. c) (λ z b. inl b)
            (draw_between_signed-IsBetween h sym draw low high good rl rh (ground arith)) s)
    | inr same ↦ rw (ordered, same) (inl (ground arith))
  ]
]
