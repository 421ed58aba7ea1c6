-- ===== src/DeepState/Range/Draws.antt =====
-- Which value DEEPSTATE_MAKE_SYMBOLIC_RANGE returns, and what it draws (inst/include/DeepState.h).
use rcpp_deep_state.Base.{
  ℕ, ◌≡◌, ◌∙◌, inl, inr, Bool, true, false, ◌&&◌, ◌||◌, arith, ℤ, ◌≤ℤ◌, IsBetween, ltb_ℤ, leb_ℤ,
  eq_of_parts, ok, bind_of_ok, Computation, Bool-cases,
}
use rcpp_deep_state.DeepState.Range.{use_draw_signed, draw_between_signed, in_range_signed}

module _ {S : Type 0} (h : ℕ) (sym : Bool) where
  pub in_range_signed_comm :
      (draw : Computation S ℤ) (low high : ℤ)
      → in_range_signed h sym draw low high ≡ in_range_signed h sym draw high low
  unfolding in_range_signed
  in_range_signed_comm draw low high = elim (Bool-cases (ltb_ℤ high low)) [
    | inl swapped ↦ let unswapped : ltb_ℤ low high ≡ false = ground arith in rw (swapped, unswapped)
    | inr ordered ↦ elim (Bool-cases (ltb_ℤ low high)) [
      | inl apart ↦ rw (ordered, apart)
      | inr same ↦ rw (eq_of_parts low high (ground arith))
    ]
  ]

  use_draw_signed_keeps :
      (low high x : ℤ) (s : S)
      → IsBetween low high x
      → use_draw_signed h sym low high x s ≡ ok (x, s)
  unfolding use_draw_signed
  use_draw_signed_keeps low high x s inside =
      let assumed : (leb_ℤ low x && leb_ℤ x high) ≡ true = ground arith in
      let kept : (ltb_ℤ x low || ltb_ℤ high x) ≡ false = ground arith in
      elim (Bool-cases sym) [ inl on ↦ rw (on, assumed) | inr off ↦ rw (off, kept) ]

  draw_between_signed_of_draw :
      (draw : Computation S ℤ) (low high x : ℤ) (s s' : S)
      → draw s ≡ ok (x, s')
      → draw_between_signed h sym draw low high s ≡ use_draw_signed h sym low high x s'
  unfolding draw_between_signed
  draw_between_signed_of_draw draw low high x s s' drawn = bind_of_ok draw _ s drawn

  pub in_range_signed_keeps :
      (draw : Computation S ℤ) (low high x : ℤ) (s s' : S)
      → draw s ≡ ok (x, s')
      → IsBetween low high x
      → ¬ (high ≤ℤ low)
      → in_range_signed h sym draw low high s ≡ ok (x, s')
  unfolding in_range_signed
  in_range_signed_keeps draw low high x s s' drawn inside apart =
      let ordered : ltb_ℤ high low ≡ false = ground arith in
      let strict : ltb_ℤ low high ≡ true = ground arith in
      rw (ordered, strict)
        (draw_between_signed_of_draw draw low high x s s' drawn
          ∙ use_draw_signed_keeps low high x s' inside)
