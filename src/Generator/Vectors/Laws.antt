-- ===== src/Generator/Vectors/Laws.antt =====
-- What the vector generators return for a size that is not zero: a vector of that size, whose
-- elements lie in the range but for the few that are overwritten.
use rcpp_deep_state.Base.{
  ℕ, zero, suc, ◌+◌, ◌^◌, ◌≤◌, ◌<◌, ◌≡◌, ◌∙◌, arith, ℤ, pos, negsuc, ◌-ℤ◌, ◌≤ℤ◌, IsBetween,
  pos_part, IsRepresentable, List, [], ◌∷◌, length, replicate, length-replicate, All-unit, CutIf,
  Meets, Meets-bind, Meets-mono, Computation,
}
use rcpp_deep_state.Source.{Source, int_in_range-IsBetween}
use rcpp_deep_state.Rcpp.{fill, inject}
use rcpp_deep_state.Rcpp.Elements.{AllBut, AllFirst, AllBut-of_first}
use rcpp_deep_state.Rcpp.Laws.{IsIndex, fill-AllFirst, inject-AllBut}
use rcpp_deep_state.Generator.Vectors.{
  missing_doubles, missing_ints, inject_missing, numeric_with_missing, ranged_numeric_vector,
  integer_with_missing, ranged_integer_vector,
}

-- `size - 1`, for a size that is not zero.
pred_lem : (n : ℕ) → pos (suc n) -ℤ pos 1 ≡ pos n
unfolding ◌-ℤ◌
pred_lem n = ground arith

-- The vector has `n` elements, and all but `k` of them have the property.
abbrev pub IsFilled : {A : Type 0} → (A → Type 0) → ℕ → ℕ → List A → Type 0
IsFilled P n k v = (length v ≡ n) × AllBut P k v

IsIndex-of_between : (n : ℕ) (i : ℤ) → IsBetween (pos 0) (pos n) i → IsIndex (suc n) i
IsIndex-of_between n (pos i) h = omega arith
IsIndex-of_between n (negsuc i) h = absurd (omega arith)

module _ (src : Source) where
  open src use {State, symbolic, Double, IsDoubleBetween}

  -- Only elements of the vector are overwritten, each spoiling at most one.
  pub inject_missing-IsFilled :
      {A : Type 0} (P : A → Type 0) (rounds k n : ℕ) (missing v : List A)
      → suc n < 2 ^ 31
      → 0 < length missing
      → length missing < 2 ^ 31
      → IsFilled P (suc n) k v
      → Meets
          (CutIf symbolic)
          (inject_missing src rounds (pos (suc n)) missing v)
          (IsFilled P (suc n) (rounds + k))
  unfolding inject_missing
  inject_missing-IsFilled {A} P rounds k n missing v fits some_missing few h =
      let R = CutIf symbolic in
      let at = src.int_in_range (pos 0) (pos (suc n) -ℤ pos 1) in
      let value = src.one_of_array missing in
      Meets-mono R (λ u. (length u ≡ length v) × AllBut P (rounds + k) u)
        (IsFilled P (suc n) (rounds + k)) (inject rounds at value v) (λ u r. (r.0 ∙ h.0, r.1))
        (inject-AllBut R P at value rounds k v
          (rw (h.0, pred_lem)
            (Meets-mono R (IsBetween (pos 0) (pos n)) (IsIndex (suc n))
              (src.int_in_range (pos 0) (pos n)) (IsIndex-of_between n)
              (int_in_range-IsBetween src (pos 0) (pos n) (omega arith) (omega arith)
                (omega arith))))
          (src.one_of_array-All (λ x. Unit {0}) missing some_missing few (All-unit missing)) h.1)

  -- A loop over all elements but the last `k` leaves at most those.
  pub fill-IsFilled :
      {A : Type 0} (P : A → Type 0) (draw : Computation State A) (rounds : ℤ) (k n : ℕ) (v : List A)
      → Meets (CutIf symbolic) draw P
      → length v ≡ n
      → pos_part rounds ≤ n
      → n ≤ pos_part rounds + k
      → Meets (CutIf symbolic) (fill rounds draw v) (IsFilled P n k)
  fill-IsFilled P draw rounds k n v d e le ge =
      Meets-mono (CutIf symbolic) (λ u. (length u ≡ length v) × AllFirst P (pos_part rounds) u)
        (IsFilled P n k) (fill rounds draw v)
        (λ u r.
          let same : length u ≡ n = r.0 ∙ e in
          (same, AllBut-of_first P k (pos_part rounds) u (omega arith) r.1))
        (fill-AllFirst (CutIf symbolic) P draw rounds v d (omega arith))

  numeric_with_missing-IsFilled :
      (P : Double → Type 0) (draw : Computation State Double) (d : Double) (n : ℕ) (v : List Double)
      → Meets (CutIf symbolic) draw P
      → suc n < 2 ^ 31
      → length v ≡ suc n
      → Meets
          (CutIf symbolic)
          (numeric_with_missing src (pos (suc n)) draw (missing_doubles src d) v)
          (IsFilled P (suc n) 6)
  unfolding numeric_with_missing
  numeric_with_missing-IsFilled P draw d n v good fits e =
      let R = CutIf symbolic in
      let missing = missing_doubles src d in
      rw pred_lem (
        Meets-bind R (IsFilled P (suc n) 1) (IsFilled P (suc n) 6) (fill (pos n) draw v)
          (inject_missing src 5 (pos (suc n)) missing)
          (fill-IsFilled P draw (pos n) 1 (suc n) v good e (omega arith) (omega arith))
          (λ v' h. inject_missing-IsFilled P 5 1 n missing v' fits (omega arith) (omega arith) h))

  integer_with_missing-IsFilled :
      (P : ℤ → Type 0) (draw : Computation State ℤ) (z : ℤ) (n : ℕ) (v : List ℤ)
      → Meets (CutIf symbolic) draw P
      → suc n < 2 ^ 31
      → length v ≡ suc n
      → Meets
          (CutIf symbolic)
          (integer_with_missing src (pos (suc n)) draw (missing_ints src z) v)
          (IsFilled P (suc n) 2)
  unfolding integer_with_missing
  integer_with_missing-IsFilled P draw z n v good fits e =
      let R = CutIf symbolic in
      Meets-bind R (IsFilled P (suc n) 0) (IsFilled P (suc n) 2) (fill (pos (suc n)) draw v)
        (inject_missing src 2 (pos (suc n)) (missing_ints src z))
        (fill-IsFilled P draw (pos (suc n)) 0 (suc n) v good e (omega arith) (omega arith))
        (λ v' h.
          inject_missing-IsFilled P 2 0 n (missing_ints src z) v' fits (omega arith) (omega arith)
            h)

  -- `OneOf` of the two functions, for a new vector of a size that is not zero.
  pub one_of_numeric-IsFilled :
      (P : Double → Type 0) (draw : Computation State Double) (d : Double) (n : ℕ) (v : List Double)
      → Meets (CutIf symbolic) draw P
      → suc n < 2 ^ 31
      → length v ≡ suc n
      → Meets
          (CutIf symbolic)
          (src.one_of (
            fill (pos (suc n)) draw v
            ∷ numeric_with_missing src (pos (suc n)) draw (missing_doubles src d) v
            ∷ []))
          (IsFilled P (suc n) 6)
  one_of_numeric-IsFilled P draw d n v good fits e =
      src.one_of-Meets (CutIf symbolic) (IsFilled P (suc n) 6) _ (λ e c. c) (omega arith)
        (omega arith)
        (
          fill-IsFilled P draw (pos (suc n)) 6 (suc n) v good e (omega arith) (omega arith),
          (numeric_with_missing-IsFilled P draw d n v good fits e, tt),
        )

  pub one_of_integer-IsFilled :
      (P : ℤ → Type 0) (draw : Computation State ℤ) (z : ℤ) (n : ℕ) (v : List ℤ)
      → Meets (CutIf symbolic) draw P
      → suc n < 2 ^ 31
      → length v ≡ suc n
      → Meets
          (CutIf symbolic)
          (src.one_of (
            fill (pos (suc n)) draw v
            ∷ integer_with_missing src (pos (suc n)) draw (missing_ints src z) v
            ∷ []))
          (IsFilled P (suc n) 2)
  one_of_integer-IsFilled P draw z n v good fits e =
      src.one_of-Meets (CutIf symbolic) (IsFilled P (suc n) 2) _ (λ e c. c) (omega arith)
        (omega arith)
        (
          fill-IsFilled P draw (pos (suc n)) 2 (suc n) v good e (omega arith) (omega arith),
          (integer_with_missing-IsFilled P draw z n v good fits e, tt),
        )

  -- For a size from 1 to 2^31 - 1, RcppDeepState_NumericVector(size, low, high) returns a vector
  -- of that size with all elements in the range but at most six, and never accesses outside the
  -- vector, unless symbolic execution cuts the path.
  pub ranged_numeric_vector_lem :
      (n : ℕ) (low high : ℤ)
      → 0 < n
      → n < 2 ^ 31
      → Meets
          (CutIf symbolic)
          (ranged_numeric_vector src (pos n) low high)
          (IsFilled (IsDoubleBetween (src.of_int low) (src.of_int high)) n 6)
  unfolding ranged_numeric_vector
  ranged_numeric_vector_lem zero low high h k = absurd (omega arith)
  ranged_numeric_vector_lem (suc n) low high h k =
      let P = IsDoubleBetween (src.of_int low) (src.of_int high) in
      let draw = src.double_in_range (src.of_int low) (src.of_int high) in
      Meets-bind (CutIf symbolic) (λ d. Unit {0}) (IsFilled P (suc n) 6) src.double _
        src.double-returns
        (λ d u.
          one_of_numeric-IsFilled P draw d n (replicate (suc n) src.zero)
            (src.double_in_range-between (src.of_int low) (src.of_int high)) k
            (length-replicate (suc n) src.zero))

  -- For a size from 1 to 2^31 - 1 and int bounds in order, RcppDeepState_IntegerVector(size, low,
  -- high) returns a vector of that size with all elements in the range but at most two, and never
  -- accesses outside the vector, unless symbolic execution cuts the path.
  pub ranged_integer_vector_lem :
      (n : ℕ) (low high : ℤ)
      → 0 < n
      → n < 2 ^ 31
      → IsRepresentable (2 ^ 31) low
      → IsRepresentable (2 ^ 31) high
      → low ≤ℤ high
      → Meets
          (CutIf symbolic)
          (ranged_integer_vector src (pos n) low high)
          (IsFilled (IsBetween low high) n 2)
  unfolding ranged_integer_vector
  ranged_integer_vector_lem zero low high h k rl rh p = absurd (omega arith)
  ranged_integer_vector_lem (suc n) low high h k rl rh p =
      let P = IsBetween low high in
      Meets-bind (CutIf symbolic) (IsRepresentable (2 ^ 31)) (IsFilled P (suc n) 2) src.int _
        src.int-representable
        (λ z r.
          one_of_integer-IsFilled P (src.int_in_range low high) z n (replicate (suc n) (pos 0))
            (int_in_range-IsBetween src low high rl rh p) k (length-replicate (suc n) (pos 0)))
