-- ===== src/Rcpp/Elements.antt =====
-- Properties of the elements of a vector, and what one write does to them.
use rcpp_deep_state.Base.{ℕ, zero, suc, ◌+◌, ◌≤◌, ◌⊎◌, inl, inr, arith, List, [], ◌∷◌, length, set}

module _ {A : Type 0} (P : A → Type 0) where
  -- Every element but at most `k` of them has the property.
  abbrev pub AllBut : ℕ → List A → Type 0
  AllBut k [] = Unit
  AllBut zero (x ∷ xs) = P x × AllBut zero xs
  AllBut (suc k) (x ∷ xs) = (P x × AllBut (suc k) xs) ⊎ AllBut k xs

  -- The first `n` elements have the property.
  abbrev pub AllFirst : ℕ → List A → Type 0
  AllFirst zero xs = Unit
  AllFirst (suc n) [] = Unit
  AllFirst (suc n) (x ∷ xs) = P x × AllFirst n xs

  pub AllBut-suc : (k : ℕ) (v : List A) → AllBut k v → AllBut (suc k) v
  AllBut-suc zero [] h = tt
  AllBut-suc (suc k) [] h = tt
  AllBut-suc zero (x ∷ xs) h = inl (h.0, AllBut-suc zero xs h.1)
  AllBut-suc (suc k) (x ∷ xs) (inl h) = inl (h.0, AllBut-suc (suc k) xs h.1)
  AllBut-suc (suc k) (x ∷ xs) (inr h) = inr (AllBut-suc k xs h)

  -- One write spoils at most one more element.
  pub AllBut-set : (k : ℕ) (v : List A) (i : ℕ) (x : A) → AllBut k v → AllBut (suc k) (set v i x)
  AllBut-set k [] i x h = tt
  AllBut-set zero (y ∷ ys) zero x h = inr h.1
  AllBut-set (suc k) (y ∷ ys) zero x (inl h) = inr h.1
  AllBut-set (suc k) (y ∷ ys) zero x (inr h) = inr (AllBut-suc k ys h)
  AllBut-set zero (y ∷ ys) (suc i) x h = inl (h.0, AllBut-set zero ys i x h.1)
  AllBut-set (suc k) (y ∷ ys) (suc i) x (inl h) = inl (h.0, AllBut-set (suc k) ys i x h.1)
  AllBut-set (suc k) (y ∷ ys) (suc i) x (inr h) = inr (AllBut-set k ys i x h)

  pub AllBut-of_first : (k n : ℕ) (v : List A) → length v ≤ n + k → AllFirst n v → AllBut k v
  AllBut-of_first k zero [] h a = tt
  AllBut-of_first k (suc n) [] h a = tt
  AllBut-of_first zero zero (x ∷ xs) h a = absurd (omega arith)
  AllBut-of_first (suc k) zero (x ∷ xs) h a = inr (AllBut-of_first k zero xs (omega arith) tt)
  AllBut-of_first zero (suc n) (x ∷ xs) h a = (a.0, AllBut-of_first zero n xs (omega arith) a.1)
  AllBut-of_first (suc k) (suc n) (x ∷ xs) h a =
      inl (a.0, AllBut-of_first (suc k) n xs (omega arith) a.1)

  -- A write just behind the good elements makes one more good.
  pub AllFirst-set :
      (n : ℕ) (v : List A) (x : A) → AllFirst n v → P x → AllFirst (suc n) (set v n x)
  AllFirst-set zero [] x a p = tt
  AllFirst-set (suc n) [] x a p = tt
  AllFirst-set zero (y ∷ ys) x a p = (p, tt)
  AllFirst-set (suc n) (y ∷ ys) x a p = (a.0, AllFirst-set n ys x a.1 p)
