-- ===== src/Generator/Texts/Laws.antt =====
-- What the string generators return.
use rcpp_deep_state.Base.{
  ℕ, zero, suc, ◌+◌, ◌^◌, ◌≤◌, ◌<◌, ◌≡◌, ◌∙◌, true, arith, ℤ, pos, negsuc, pos_part, IsBetween,
  Option, none, some, List, [], length, length-set, replicate, length-replicate, All, All-set,
  All-replicate, contains, CutIf, Meets, Meets-bind, Meets-mono, ◌>>=◌,
}
use rcpp_deep_state.Source.{Source, int_in_range-IsBetween}
use rcpp_deep_state.Rcpp.{new_vector, write}
use rcpp_deep_state.Rcpp.Laws.{write_lem}
use rcpp_deep_state.Generator.Texts.{
  alphabet, set_string, set_strings, random_character_vector, random_string,
}

-- A string of at most `n` lower-case letters.
abbrev pub IsWord : ℕ → List ℕ → Type 0
IsWord n str = (length str ≤ n) × All (λ c. contains alphabet c ≡ true) str

-- NA_STRING, or such a string.
abbrev pub IsCell : ℕ → Option (List ℕ) → Type 0
IsCell n none = Unit
IsCell n (some str) = IsWord n str

-- A vector of `size` such elements.
abbrev pub IsText : ℕ → ℕ → List (Option (List ℕ)) → Type 0
IsText n size v = (length v ≡ size) × All (IsCell n) v

module _ (src : Source) where
  open src use {State, symbolic}

  write-IsText :
      (n size i : ℕ) (v : List (Option (List ℕ))) (x : Option (List ℕ))
      → i < size
      → IsText n size v
      → IsCell n x
      → Meets {S = State} (CutIf symbolic) (write v (pos i) x) (IsText n size)
  write-IsText n size i v x h t c =
      write_lem (CutIf symbolic) (IsText n size) v i x (rw t.0 h)
        (length-set v i x ∙ t.0, All-set (IsCell n) v i x t.1 c)

  set_string-IsText :
      (n size i : ℕ) (v : List (Option (List ℕ)))
      → n + 1 < 2 ^ 32
      → i < size
      → IsText n size v
      → Meets (CutIf symbolic) (set_string src n v (pos i)) (IsText n size)
  unfolding set_string
  set_string-IsText n size i v fits h t =
      let R = CutIf symbolic in
      let put = λ (str : List ℕ). write {S = State} v (pos i) (some str) in
      src.one_of-Meets R (IsText n size) _ (λ e c. c) (omega arith) (omega arith)
        (
          Meets-bind R (λ str. (length str ≡ n) × All (λ c. contains alphabet c ≡ true) str)
              (IsText n size) (src.c_str n alphabet) put (src.c_str_lem n alphabet (omega arith))
              (λ str w. write-IsText n size i v (some str) h t (omega (arith, w.0), w.1)),
          (
            Meets-bind R (IsWord n) (IsText n size) (src.c_str_up_to_len n alphabet) put
                (src.c_str_up_to_len_lem n alphabet (omega arith) fits)
                (λ str w. write-IsText n size i v (some str) h t w),
            (write-IsText n size i v none h t tt, tt),
          ),
        )

  set_strings-IsText :
      (n size rounds i : ℕ) (v : List (Option (List ℕ)))
      → n + 1 < 2 ^ 32
      → i + rounds ≤ size
      → IsText n size v
      → Meets (CutIf symbolic) (set_strings src n rounds i v) (IsText n size)
  unfolding set_strings
  set_strings-IsText n size zero i v fits h t = λ s. t
  set_strings-IsText n size (suc rounds) i v fits h t =
      Meets-bind (CutIf symbolic) (IsText n size) (IsText n size) (set_string src n v (pos i))
        (set_strings src n rounds (suc i)) (set_string-IsText n size i v fits (omega arith) t)
        (λ v' t'. set_strings-IsText n size rounds (suc i) v' fits (omega arith) t')

  cells_of_size :
      (size : ℤ)
      → IsBetween (pos 0) (pos 100) size
      → Meets
          (CutIf symbolic)
          (new_vector (some []) size >>= λ v. set_strings src 20 (pos_part size) 0 v)
          (λ v. (length v ≤ 100) × All (IsCell 20) v)
  cells_of_size (negsuc n) b = absurd (omega arith)
  cells_of_size (pos n) b =
      Meets-mono (CutIf symbolic) (IsText 20 n) (λ v. (length v ≤ 100) × All (IsCell 20) v) _
        (λ v t. (omega (arith, t.0), t.1))
        (set_strings-IsText 20 n n 0 (replicate n (some [])) (omega arith) (omega arith)
          (length-replicate n (some []), All-replicate (IsCell 20) n (some []) (omega arith, tt)))

  -- RcppDeepState_CharacterVector() returns at most 100 elements, each NA_STRING or at most 20
  -- lower-case letters, unless symbolic execution cuts the path.
  pub random_character_vector_lem :
      Meets
        (CutIf symbolic)
        (random_character_vector src)
        (λ v. (length v ≤ 100) × All (IsCell 20) v)
  unfolding random_character_vector
  random_character_vector_lem =
      let P = λ (v : List (Option (List ℕ))). (length v ≤ 100) × All (IsCell 20) v in
      Meets-bind (CutIf symbolic) (IsBetween (pos 0) (pos 100)) P
        (src.int_in_range (pos 0) (pos 100)) _
        (int_in_range-IsBetween src (pos 0) (pos 100) (omega arith) (omega arith) (omega arith))
        (λ size b. cells_of_size size b)

  -- RcppDeepState_string() returns at most 50 lower-case letters, unless symbolic execution cuts
  -- the path.
  pub random_string_lem : Meets (CutIf symbolic) (random_string src) (IsWord 50)
  unfolding random_string
  random_string_lem = src.c_str_up_to_len_lem 50 alphabet (omega arith) (omega arith)
