-- ===== src/Generator/Vectors/Empty.antt =====
-- The vector generators at size 0, where the second function of `OneOf` writes into an empty
-- vector, and the generators that draw their size.
use rcpp_deep_state.Base.{
  ℕ, zero, suc, ◌^◌, ◌≤◌, ◌<◌, ◌≡◌, refl, ap, Bool, true, arith, ℤ, pos, negsuc, ◌-ℤ◌, IsWithin,
  IsBetween, IsRepresentable, List, [], ◌∷◌, length, replicate, length-replicate, All-unit, Stop,
  assume_failed, out_of_bounds, divide_by_zero, bad_length, abandoned, CutIf, Meets, Meets-bind,
  Meets-mono, Meets-weaken, Computation, ◌>>=◌,
}
use rcpp_deep_state.Source.{Source, int_in_range-IsBetween}
use rcpp_deep_state.Rcpp.{new_vector, fill}
use rcpp_deep_state.Rcpp.Laws.{inject-empty}
use rcpp_deep_state.Generator.Vectors.{
  missing_doubles, missing_ints, inject_missing, numeric_with_missing, random_numeric_vector,
  integer_with_missing, random_integer_vector,
}
use rcpp_deep_state.Generator.Vectors.Laws.{
  IsFilled, one_of_numeric-IsFilled, one_of_integer-IsFilled,
}

-- Symbolic execution cuts the path, or an element of an empty vector is accessed.
abbrev pub FaultsIfEmpty : Bool → Stop → Type 0
FaultsIfEmpty sym (out_of_bounds i n) = n ≡ 0
FaultsIfEmpty sym assume_failed = sym ≡ true
FaultsIfEmpty sym _ = ⊥

pub cut_faults : (sym : Bool) (e : Stop) → CutIf sym e → FaultsIfEmpty sym e
cut_faults sym assume_failed h = h
cut_faults sym abandoned h = h
cut_faults sym (bad_length n) h = h
cut_faults sym divide_by_zero h = h
cut_faults sym (out_of_bounds i n) h = absurd h

module _ (src : Source) where
  open src use {State, symbolic, Double}

  -- At least one overwriting of an element of a vector of size 0, by an array of missing values
  -- that is not empty and has fewer than 2^31 elements, never returns: it accesses an element of
  -- the empty vector, or the path is cut.
  pub inject_missing-empty :
      {A : Type 0} (rounds : ℕ) (missing : List A)
      → 0 < length missing
      → length missing < 2 ^ 31
      → Meets (FaultsIfEmpty symbolic) (inject_missing src (suc rounds) (pos 0) missing []) (λ v. ⊥)
  unfolding inject_missing ◌-ℤ◌
  inject_missing-empty rounds missing h k =
      let C = CutIf symbolic in
      let R = FaultsIfEmpty symbolic in
      let at = src.int_in_range (pos 0) (negsuc 0) in
      let value = src.one_of_array missing in
      inject-empty R at value rounds (λ j. refl)
        (Meets-weaken C R (IsWithin (pos 0) (negsuc 0)) (λ i. Unit {0}) at (cut_faults symbolic)
          (λ i w. tt) (src.int_in_range-IsWithin (pos 0) (negsuc 0) (omega arith) (omega arith)))
        (Meets-weaken C R (λ x. Unit {0}) (λ x. Unit {0}) value (cut_faults symbolic) (λ x u. tt)
          (src.one_of_array-All (λ x. Unit {0}) missing h k (All-unit missing)))

  -- Both functions of a numeric vector of size 0: the first leaves it empty.
  one_of_numeric-empty :
      (draw : Computation State Double) (d : Double)
      → Meets
          (FaultsIfEmpty symbolic)
          (src.one_of (
            fill (pos 0) draw []
            ∷ numeric_with_missing src (pos 0) draw (missing_doubles src d) []
            ∷ []))
          (λ v. v ≡ [])
  unfolding numeric_with_missing ◌-ℤ◌ fill
  one_of_numeric-empty draw d =
      let R = FaultsIfEmpty symbolic in
      src.one_of-Meets R (λ v. v ≡ []) _ (cut_faults symbolic) (omega arith) (omega arith)
        (
          (λ s. refl),
          (
            Meets-mono R (λ v. ⊥) (λ v. v ≡ [])
                (inject_missing src 5 (pos 0) (missing_doubles src d) []) (λ v b. absurd b)
                (inject_missing-empty 4 (missing_doubles src d) (omega arith) (omega arith)),
            tt,
          ),
        )

  one_of_integer-empty :
      (draw : Computation State ℤ) (z : ℤ)
      → Meets
          (FaultsIfEmpty symbolic)
          (src.one_of (
            fill (pos 0) draw []
            ∷ integer_with_missing src (pos 0) draw (missing_ints src z) []
            ∷ []))
          (λ v. v ≡ [])
  unfolding integer_with_missing fill
  one_of_integer-empty draw z =
      let R = FaultsIfEmpty symbolic in
      src.one_of-Meets R (λ v. v ≡ []) _ (cut_faults symbolic) (omega arith) (omega arith)
        (
          (λ s. refl),
          (
            Meets-mono R (λ v. ⊥) (λ v. v ≡ [])
                (inject_missing src 2 (pos 0) (missing_ints src z) []) (λ v b. absurd b)
                (inject_missing-empty 1 (missing_ints src z) (omega arith) (omega arith)),
            tt,
          ),
        )

  -- The rest of `RcppDeepState_NumericVector()` once the size is known.
  numeric_of_size :
      (d : Double) (size : ℤ)
      → IsBetween (pos 0) (pos 100) size
      → Meets
          (FaultsIfEmpty symbolic)
          (new_vector src.zero size >>= λ v. src.one_of (
            fill size src.double v
            ∷ numeric_with_missing src size src.double (missing_doubles src d) v
            ∷ []))
          (λ v. length v ≤ 100)
  numeric_of_size d (negsuc n) h = absurd (omega arith)
  numeric_of_size d (pos zero) h =
      Meets-mono (FaultsIfEmpty symbolic) (λ v. v ≡ []) (λ v. length v ≤ 100) _
        (λ v e. omega (arith, ap length e)) (one_of_numeric-empty src.double d)
  numeric_of_size d (pos (suc n)) h =
      Meets-weaken (CutIf symbolic) (FaultsIfEmpty symbolic) (IsFilled (λ x. Unit {0}) (suc n) 6)
        (λ v. length v ≤ 100) _ (cut_faults symbolic) (λ v f. omega (arith, f.0))
        (one_of_numeric-IsFilled src (λ x. Unit {0}) src.double d n (replicate (suc n) src.zero)
          src.double-returns (omega arith) (length-replicate (suc n) src.zero))

  integer_of_size :
      (z size : ℤ)
      → IsBetween (pos 0) (pos 100) size
      → Meets
          (FaultsIfEmpty symbolic)
          (new_vector (pos 0) size >>= λ v. src.one_of (
            fill size src.int v
            ∷ integer_with_missing src size src.int (missing_ints src z) v
            ∷ []))
          (λ v. length v ≤ 100)
  integer_of_size z (negsuc n) h = absurd (omega arith)
  integer_of_size z (pos zero) h =
      Meets-mono (FaultsIfEmpty symbolic) (λ v. v ≡ []) (λ v. length v ≤ 100) _
        (λ v e. omega (arith, ap length e)) (one_of_integer-empty src.int z)
  integer_of_size z (pos (suc n)) h =
      Meets-weaken (CutIf symbolic) (FaultsIfEmpty symbolic)
        (IsFilled (IsRepresentable (2 ^ 31)) (suc n) 2) (λ v. length v ≤ 100) _
        (cut_faults symbolic) (λ v f. omega (arith, f.0))
        (one_of_integer-IsFilled src (IsRepresentable (2 ^ 31)) src.int z n
          (replicate (suc n) (pos 0)) src.int-representable (omega arith)
          (length-replicate (suc n) (pos 0)))

  -- RcppDeepState_NumericVector() returns a vector of at most 100 elements, or accesses an
  -- element of an empty vector, or is cut by symbolic execution.
  pub random_numeric_vector_lem :
      Meets (FaultsIfEmpty symbolic) (random_numeric_vector src) (λ v. length v ≤ 100)
  unfolding random_numeric_vector
  random_numeric_vector_lem =
      let R = FaultsIfEmpty symbolic in
      let C = CutIf symbolic in
      Meets-bind R (IsBetween (pos 0) (pos 100)) (λ v. length v ≤ 100)
        (src.int_in_range (pos 0) (pos 100)) _
        (Meets-weaken C R (IsBetween (pos 0) (pos 100)) (IsBetween (pos 0) (pos 100)) _
          (cut_faults symbolic) (λ z b. b)
          (int_in_range-IsBetween src (pos 0) (pos 100) (omega arith) (omega arith) (omega arith)))
        (λ size b.
          Meets-bind R (λ d. Unit {0}) (λ v. length v ≤ 100) src.double _
            (Meets-weaken C R (λ d. Unit {0}) (λ d. Unit {0}) src.double (cut_faults symbolic)
              (λ d u. u) src.double-returns)
            (λ d u. numeric_of_size d size b))

  -- RcppDeepState_IntegerVector() returns a vector of at most 100 elements, or accesses an
  -- element of an empty vector, or is cut by symbolic execution.
  pub random_integer_vector_lem :
      Meets (FaultsIfEmpty symbolic) (random_integer_vector src) (λ v. length v ≤ 100)
  unfolding random_integer_vector
  random_integer_vector_lem =
      let R = FaultsIfEmpty symbolic in
      let C = CutIf symbolic in
      Meets-bind R (IsBetween (pos 0) (pos 100)) (λ v. length v ≤ 100)
        (src.int_in_range (pos 0) (pos 100)) _
        (Meets-weaken C R (IsBetween (pos 0) (pos 100)) (IsBetween (pos 0) (pos 100)) _
          (cut_faults symbolic) (λ z b. b)
          (int_in_range-IsBetween src (pos 0) (pos 100) (omega arith) (omega arith) (omega arith)))
        (λ size b.
          Meets-bind R (λ z. Unit {0}) (λ v. length v ≤ 100) src.int _
            (Meets-weaken C R (IsRepresentable (2 ^ 31)) (λ z. Unit {0}) src.int
              (cut_faults symbolic) (λ z r. tt) src.int-representable)
            (λ z u. integer_of_size z size b))
