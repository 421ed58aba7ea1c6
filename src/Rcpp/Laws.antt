-- ===== src/Rcpp/Laws.antt =====
-- What the loops of the generators do to a vector.
use native.Mathlib.Nat.{add-zero, zero-add}
use rcpp_deep_state.Base.{
  ℕ, zero, suc, ◌+◌, ◌≤◌, ◌<◌, ◌≡◌, refl, ◌∙◌, false, arith, ℤ, pos, negsuc, pos_part, List, [],
  length, set, length-set, ltb, lt→ltb, Stop, out_of_bounds, Meets, Meets-bind, Meets-mono,
  Computation, ◌>>=◌,
}
use rcpp_deep_state.Rcpp.{write, fill_from, fill, inject}
use rcpp_deep_state.Rcpp.Elements.{AllBut, AllFirst, AllFirst-set, AllBut-set}

-- The index of an element.
abbrev pub IsIndex : ℕ → ℤ → Type 0
IsIndex n (pos i) = i < n
IsIndex n (negsuc i) = ⊥

module _ {S A : Type 0} (R : Stop → Type 0) where
  -- A write inside the vector changes that element and nothing else.
  pub write_lem :
      (P : List A → Type 0) (v : List A) (i : ℕ) (x : A)
      → i < length v
      → P (set v i x)
      → Meets {S = S} R (write v (pos i) x) P
  unfolding write
  write_lem P v i x h p s = rw (lt→ltb i (length v) h) p

  write-Meets :
      (P : List A → Type 0) (v : List A) (i : ℤ) (x : A)
      → IsIndex (length v) i
      → ((j : ℕ) → P (set v j x))
      → Meets {S = S} R (write v i x) P
  write-Meets P v (pos i) x h p = write_lem P v i x h (p i)
  write-Meets P v (negsuc i) x h p = absurd h

  -- The loop overwrites the elements from `i` on, one after the other.
  fill_from-AllFirst :
      (P : A → Type 0) (draw : Computation S A)
      → Meets R draw P
      → (rounds i : ℕ) (v : List A) → i + rounds ≤ length v
      → AllFirst P i v
      → Meets R
          (fill_from rounds i draw v)
          (λ v'. (length v' ≡ length v) × AllFirst P (i + rounds) v')
  unfolding fill_from
  fill_from-AllFirst P draw d zero i v h a = λ s. (refl, rw add-zero a)
  fill_from-AllFirst P draw d (suc rounds) i v h a =
      let Q = λ (v' : List A). (length v' ≡ length v) × AllFirst P (i + suc rounds) v' in
      Meets-bind R P Q draw (λ x. write v (pos i) x >>= λ v'. fill_from rounds (suc i) draw v') d
        (λ x p.
          let W = λ (v' : List A). (length v' ≡ length v) × AllFirst P (suc i) v' in
          Meets-bind R W Q (write v (pos i) x) (λ v'. fill_from rounds (suc i) draw v')
            (write_lem W v i x (omega arith) (length-set v i x, AllFirst-set P i v x a p))
            (λ v' w.
              let shift : suc i + rounds ≡ i + suc rounds = omega arith in
              Meets-mono R (λ u. (length u ≡ length v') × AllFirst P (suc i + rounds) u) Q
                (fill_from rounds (suc i) draw v') (λ u r. (r.0 ∙ w.0, rw shift at r.1))
                (fill_from-AllFirst P draw d rounds (suc i) v' (omega arith) w.1)))

  -- A whole loop inside the vector.
  pub fill-AllFirst :
      (P : A → Type 0) (draw : Computation S A) (n : ℤ) (v : List A)
      → Meets R draw P
      → pos_part n ≤ length v
      → Meets R (fill n draw v) (λ v'. (length v' ≡ length v) × AllFirst P (pos_part n) v')
  unfolding fill
  fill-AllFirst P draw n v d h =
      rw (zero-add (pos_part n)) at (fill_from-AllFirst P draw d (pos_part n) 0 v (omega arith) tt)

  -- Overwriting some elements keeps the length, and spoils at most one element a round.
  pub inject-AllBut :
      (P : A → Type 0) (at : Computation S ℤ) (value : Computation S A) (rounds k : ℕ) (v : List A)
      → Meets R at (IsIndex (length v))
      → Meets R value (λ x. Unit {0})
      → AllBut P k v
      → Meets R (inject rounds at value v) (λ v'. (length v' ≡ length v) × AllBut P (rounds + k) v')
  unfolding inject
  inject-AllBut P at value zero k v ha hv b = λ s. (refl, rw zero-add b)
  inject-AllBut P at value (suc rounds) k v ha hv b =
      let Q = λ (v' : List A). (length v' ≡ length v) × AllBut P (suc rounds + k) v' in
      Meets-bind R (λ x. Unit {0}) Q value
        (λ x. at >>= λ i. write v i x >>= λ v'. inject rounds at value v') hv
        (λ x u.
          Meets-bind R (IsIndex (length v)) Q at
            (λ i. write v i x >>= λ v'. inject rounds at value v') ha
            (λ i inside.
              let W = λ (v' : List A). (length v' ≡ length v) × AllBut P (suc k) v' in
              Meets-bind R W Q (write v i x) (λ v'. inject rounds at value v')
                (write-Meets W v i x inside (λ j. (length-set v j x, AllBut-set P k v j x b)))
                (λ v' w.
                  let shift : rounds + suc k ≡ suc rounds + k = omega arith in
                  Meets-mono R (λ u. (length u ≡ length v') × AllBut P (rounds + suc k) u) Q
                    (inject rounds at value v') (λ u r. (r.0 ∙ w.0, rw shift at r.1))
                    (inject-AllBut P at value rounds (suc k) v' (rw w.0 ha) hv w.1))))

-- No write into an empty vector returns, whatever the index.
write-empty :
    {S A : Type 0} (R : Stop → Type 0) (P : List A → Type 0) (i : ℤ) (x : A)
    → ((j : ℤ) → R (out_of_bounds j 0))
    → Meets {S = S} R (write [] i x) P
unfolding write
write-empty R P (pos i) x h s =
    let outside : ltb i 0 ≡ false = ground arith in rw outside (h (pos i))
write-empty R P (negsuc i) x h s = h (negsuc i)

-- Overwriting elements of an empty vector never returns: it faults at the first round.
pub inject-empty :
    {S A : Type 0} (R : Stop → Type 0) (at : Computation S ℤ) (value : Computation S A) (rounds : ℕ)
    → ((j : ℤ) → R (out_of_bounds j 0))
    → Meets R at (λ i. Unit {0})
    → Meets R value (λ x. Unit {0})
    → Meets R (inject (suc rounds) at value []) (λ v. ⊥)
unfolding inject
inject-empty R at value rounds h ha hv =
    Meets-bind R (λ x. Unit {0}) (λ v. ⊥) value
      (λ x. at >>= λ i. write [] i x >>= λ v'. inject rounds at value v') hv
      (λ x u.
        Meets-bind R (λ i. Unit {0}) (λ v. ⊥) at
          (λ i. write [] i x >>= λ v'. inject rounds at value v') ha
          (λ i u.
            Meets-bind R (λ v'. ⊥) (λ v. ⊥) (write [] i x) (λ v'. inject rounds at value v')
              (write-empty R (λ v'. ⊥) i x h) (λ v' b. absurd b)))
