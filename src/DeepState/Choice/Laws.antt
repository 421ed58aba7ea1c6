-- ===== src/DeepState/Choice/Laws.antt =====
-- What `Pump`, `OneOf` and the strings guarantee (inst/include/DeepState.hpp).
use rcpp_deep_state.Base.{
  ℕ, zero, suc, ◌+◌, ◌-◌, ◌%◌, ◌^◌, ◌≤◌, ◌<◌, ◌≡◌, ◌≢◌, ◌⊎◌, refl, ap, ◌∙◌, inl, inr, Bool, true,
  false, arith, ℤ, pos, negsuc, IsWithin, some, List, length, get_elem?_in_bounds, All,
  All-get_elem?, contains, ◌==◌, if◌then◌else◌, Stop, Good, Meets, Meets-bind, Meets-weaken,
  Meets-mono, Meets-if, pure, halt, abandoned, CutIf, Computation, Bool-cases, ◌>>=◌,
}
use rcpp_deep_state.DeepState.Runtime.{Runtime, int, uint}
use rcpp_deep_state.DeepState.Range.{signed_in_range, unsigned_in_range}
use rcpp_deep_state.DeepState.Range.UnsignedBounds
use rcpp_deep_state.DeepState.Range.Bounds.{signed_in_range-IsWithin, unsigned_in_range-IsWithin}
use rcpp_deep_state.DeepState.Choice.{
  index_array, minimize, pump_rounds, pump, one_of_index, one_of, one_of_array, c_str,
  c_str_up_to_len,
}

-- An index inside the array reads an element.
pub index_array-All :
    {S A : Type 0} (R : Stop → Type 0) (P : A → Type 0) (xs : List A) (i : ℕ)
    → i < length xs
    → All P xs
    → Meets {S = S} R (index_array xs (pos i)) P
unfolding index_array
index_array-All R P xs i h all s =
    let (a, e) = get_elem?_in_bounds xs i h in rw (e, Good) (All-get_elem? P xs i all e)

index_inside :
    {S A : Type 0} (R : Stop → Type 0) (P : A → Type 0) (xs : List A) (i : ℤ)
    → 0 < length xs
    → All P xs
    → IsWithin (pos 0) (pos (length xs - 1)) i
    → Meets {S = S} R (index_array xs i) P
index_inside R P xs (pos i) h all b = index_array-All R P xs i (omega arith) all
index_inside R P xs (negsuc i) h all b = absurd (omega arith)

module _ (rt : Runtime) where
  open rt use {State, using_sym_exec}

  minimize-le : (R : Stop → Type 0) (v : ℕ) → Meets R (minimize rt v) (λ m. m ≤ v)
  unfolding minimize
  minimize-le R v s = rt.min_uint-le v s

  pump_rounds-le : (R : Stop → Type 0) (n v : ℕ) → Meets R (pump_rounds rt n v) (λ m. m ≤ v)
  unfolding pump_rounds
  pump_rounds-le R zero v = minimize-le R v
  pump_rounds-le R (suc n) v =
      Meets-bind R (λ m. m ≤ v) (λ m. m ≤ v) (minimize rt v)
        (λ m. if v == m then pure m else pump_rounds rt n v) (minimize-le R v)
        (λ m h.
          Meets-if R (λ m. m ≤ v) (v == m) (pure m) (pump_rounds rt n v) (λ e s. h)
            (λ e. pump_rounds-le R n v))

  pub pump-le : (R : Stop → Type 0) (v max : ℕ) → 0 < max → Meets R (pump rt v max) (λ m. m ≤ v)
  unfolding pump
  pump-le R v max h s = elim (Bool-cases (rt.is_symbolic_uint v s)) [
    | inl on ↦ rw on (
        Meets-if R (λ m. m ≤ v) (max == 0) (halt abandoned) (pump_rounds rt (max - 1) v)
          (λ e. absurd (ground arith)) (λ e. pump_rounds-le R (max - 1) v) s)
    | inr off ↦ rw off (omega arith)
  ]

  -- The state after `n` calls of Minimize at `v`, and what the next one returns.
  abbrev pub minimized : ℕ → ℕ → State → State
  minimized v zero s = s
  minimized v (suc n) s = minimized v n (rt.min_uint v s).1

  abbrev pub minimum : ℕ → ℕ → State → ℕ
  minimum v n s = (rt.min_uint v (minimized v n s)).0

  -- The first of at most `max` calls that returns the value itself, and the last if none does.
  abbrev pub IsReturn : ℕ → ℕ → State → ℕ → Type 0
  IsReturn v max s k =
      (k < max) × ((j : ℕ) → j < k → minimum v j s ≢ v) × ((minimum v k s ≡ v) ⊎ (suc k ≡ max))

  not_before :
      (v k : ℕ) (s : State)
      → minimum v 0 s ≢ v
      → ((j : ℕ) → j < k → minimum v j (rt.min_uint v s).1 ≢ v)
      → (j : ℕ) → j < suc k
      → minimum v j s ≢ v
  not_before v k s first others zero h = first
  not_before v k s first others (suc j) h = others j (omega arith)

  later :
      (v k n : ℕ) (t : State)
      → (minimum v k t ≡ v) ⊎ (suc k ≡ suc n)
      → (minimum v k t ≡ v) ⊎ (suc (suc k) ≡ suc (suc n))
  later v k n t (inl found) = inl found
  later v k n t (inr end) = inr (ap suc end)

  pump_rounds_lem :
      (n v : ℕ) (s : State)
      → (k : ℕ) × IsReturn v (suc n) s k
        × (pump_rounds rt n v s ≡ pure (minimum v k s) (minimized v (suc k) s))
  unfolding pump_rounds minimize
  pump_rounds_lem zero v s = (0, (omega arith, (λ j h. absurd (omega arith)), inr refl), refl)
  pump_rounds_lem (suc n) v s =
      let (m, t) = rt.min_uint v s in
      let choice = λ (b : Bool). if b then pure m else pump_rounds rt n v in
      elim (Bool-cases (v == m)) [
        | inl same ↦ (
          0,
          (omega arith, (λ j h. absurd (omega arith)), inl (ground arith)),
          ap (λ b. choice b t) same,
        )
        | inr other ↦
            let (k, (few, before, last), e) = pump_rounds_lem n v t in
            (
              suc k,
              (omega arith, not_before v k s (ground arith) before, later v k n t last),
              ap (λ b. choice b t) other ∙ e,
            )
      ]

  -- Where IsSymbolic holds of a value, Pump with a positive bound returns the minimum of its
  -- first call of Minimize that gives the value itself, and that of its last call if none does;
  -- it makes at most as many calls as the bound, exactly as many if none gives the value, and
  -- leaves the state after the last one.
  pub pump_lem :
      (v max : ℕ) (s : State)
      → rt.is_symbolic_uint v s ≡ true
      → 0 < max
      → (k : ℕ) × IsReturn v max s k
        × (pump rt v max s ≡ pure (minimum v k s) (minimized v (suc k) s))
  unfolding pump
  pump_lem v zero s symbolic positive = absurd (omega arith)
  pump_lem v (suc max) s symbolic h =
      let positive : (suc max == 0) ≡ false = ground arith in
      let one_less : suc max - 1 ≡ max = omega arith in
      rw (symbolic, positive, one_less) (pump_rounds_lem max v s)

  -- Among `n` functions an index below `n` is taken.
  pub one_of_index-lt :
      (n : ℕ) → 0 < n → n < 2 ^ 32 → Meets (CutIf using_sym_exec) (one_of_index rt n) (λ i. i < n)
  unfolding one_of_index
  one_of_index-lt n h k =
      let same : (n + 2 ^ 32 - 1) % 2 ^ 32 ≡ n - 1 = omega arith in
      Meets-bind (CutIf using_sym_exec) (λ i. i < n) (λ i. i < n)
        (unsigned_in_range rt uint 0 ((n + 2 ^ 32 - 1) % 2 ^ 32)) (λ i. pump rt i n)
        (Meets-mono (CutIf using_sym_exec) (UnsignedBounds.IsWithin 0 (n - 1)) (λ i. i < n)
          (unsigned_in_range rt uint 0 ((n + 2 ^ 32 - 1) % 2 ^ 32)) (λ i b. omega arith)
          (rw same (unsigned_in_range-IsWithin rt uint 0 (n - 1) (omega arith) (omega arith))))
        (λ i b.
          Meets-mono (CutIf using_sym_exec) (λ m. m ≤ i) (λ i. i < n) (pump rt i n)
            (λ m c. omega arith) (pump-le (CutIf using_sym_exec) i n h))

  -- OneOf of at least one and fewer than 2^32 functions guarantees what all of them guarantee,
  -- and stops only as they may or where symbolic execution cuts the path.
  pub one_of-Meets :
      {A : Type 0} (R : Stop → Type 0) (P : A → Type 0) (funcs : List (Computation State A))
      → ((e : Stop) → CutIf using_sym_exec e → R e)
      → 0 < length funcs
      → length funcs < 2 ^ 32
      → All (λ f. Meets R f P) funcs
      → Meets R (one_of rt funcs) P
  unfolding one_of
  one_of-Meets R P funcs cut h k all =
      let n = length funcs in
      Meets-bind R (λ i. i < n) P (one_of_index rt n) (λ i. index_array funcs (pos i) >>= λ f. f)
        (Meets-weaken (CutIf using_sym_exec) R (λ i. i < n) (λ i. i < n) (one_of_index rt n) cut
          (λ i c. c) (one_of_index-lt n h k))
        (λ i c.
          Meets-bind R (λ f. Meets R f P) P (index_array funcs (pos i)) (λ f. f)
            (index_array-All R (λ f. Meets R f P) funcs i c all) (λ f m. m))

  -- OneOf of an array of at least one and fewer than 2^31 elements returns a value with every
  -- property that all its elements share, unless symbolic execution cuts the path.
  pub one_of_array-All :
      {A : Type 0} (P : A → Type 0) (xs : List A)
      → 0 < length xs
      → length xs < 2 ^ 31
      → All P xs
      → Meets (CutIf using_sym_exec) (one_of_array rt xs) P
  unfolding one_of_array
  one_of_array-All P xs h k all =
      let R = CutIf using_sym_exec in
      let last = pos (length xs - 1) in
      Meets-if R P (length xs == 0) (halt abandoned)
        (signed_in_range rt int (pos 0) last >>= λ i. index_array xs i) (λ e. absurd (ground arith))
        (λ e.
          Meets-bind R (IsWithin (pos 0) last) P (signed_in_range rt int (pos 0) last)
            (λ i. index_array xs i)
            (signed_in_range-IsWithin rt int (pos 0) last (omega arith) (omega arith))
            (λ i b. index_inside R P xs i h all b))

  -- A string of up to a length below 2^32 - 1, over a set of allowed characters that is not
  -- empty, has at most that length and only allowed characters, unless symbolic execution cuts
  -- the path.
  pub c_str_up_to_len_lem :
      (max_len : ℕ) (allowed : List ℕ)
      → 0 < length allowed
      → max_len + 1 < 2 ^ 32
      → Meets
          (CutIf using_sym_exec)
          (c_str_up_to_len rt max_len (some allowed))
          (λ str. (length str ≤ max_len) × All (λ c. contains allowed c ≡ true) str)
  unfolding c_str_up_to_len
  c_str_up_to_len_lem max_len allowed some_allowed h =
      let R = CutIf using_sym_exec in
      let P = λ (str : List ℕ). (length str ≤ max_len) × All (λ c. contains allowed c ≡ true) str in
      let same : max_len % 2 ^ 32 ≡ max_len = omega arith in
      let same' : (max_len + 1) % 2 ^ 32 ≡ max_len + 1 = omega arith in
      rw (same, same')
        (Meets-bind R (UnsignedBounds.IsWithin 0 max_len) P (unsigned_in_range rt uint 0 max_len)
          (λ len. pump rt len (max_len + 1) >>= λ n. c_str rt n (some allowed))
          (unsigned_in_range-IsWithin rt uint 0 max_len (omega arith) (omega arith))
          (λ len b.
            Meets-bind R (λ n. n ≤ len) P (pump rt len (max_len + 1))
              (λ n. c_str rt n (some allowed)) (pump-le R len (max_len + 1) (omega arith))
              (λ n c s. (
                omega (arith, rt.length-c_str n (some allowed) s),
                rt.c_str_allowed n allowed s some_allowed,
              ))))
