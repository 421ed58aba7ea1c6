-- ===== src/Generator/Texts.antt =====
-- The generators of strings (inst/include/RcppDeepState.h).
pub mod Laws
use rcpp_deep_state.Base.{
  ℕ, zero, suc, ℤ, pos, pos_part, Option, none, some, List, [], ◌∷◌, codes, Computation, pure,
  ◌>>=◌,
}
use rcpp_deep_state.Source.{Source}
use rcpp_deep_state.Rcpp.{new_vector, write}

abbrev pub alphabet : List ℕ
alphabet = codes "abcdefghijklmnopqrstuvwxyz"

module _ (src : Source) where
  open src use {State}

  -- An element of an Rcpp::CharacterVector, a string or NA_STRING (`none`), as the three functions
  -- of `OneOf` set it.
  unfoldable pub set_string :
      ℕ → List (Option (List ℕ)) → ℤ → Computation State (List (Option (List ℕ)))
  set_string str_len v i = src.one_of (
      (src.c_str str_len alphabet >>= λ str. write v i (some str))
      ∷ (src.c_str_up_to_len str_len alphabet >>= λ str. write v i (some str))
      ∷ write v i none
      ∷ [])

  -- The loop over the elements from `i` on.
  unfoldable pub set_strings :
      ℕ → ℕ → ℕ → List (Option (List ℕ)) → Computation State (List (Option (List ℕ)))
  set_strings str_len zero i v = pure v
  set_strings str_len (suc rounds) i v = do
    v' ← set_string str_len v (pos i)
    set_strings str_len rounds (suc i) v'

  -- `RcppDeepState_CharacterVector()`; a new vector holds empty strings.
  unfoldable pub random_character_vector : Computation State (List (Option (List ℕ)))
  random_character_vector = do
    size ← src.int_in_range (pos 0) (pos 100)
    v ← new_vector (some []) size
    set_strings 20 (pos_part size) 0 v

  -- `RcppDeepState_string()`.
  unfoldable pub random_string : Computation State (List ℕ)
  random_string = src.c_str_up_to_len 50 alphabet
