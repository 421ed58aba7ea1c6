-- ===== src/DeepState/Choice.antt =====
-- `Pump` and the overloads of `OneOf` without swarm testing, of inst/include/DeepState.hpp, and the
-- strings of up to a length. What is printed under FLAGS_verbose_reads is left out.
pub mod Laws
use rcpp_deep_state.Base.{
  ℕ, zero, suc, ◌+◌, ◌-◌, ◌%◌, ◌^◌, Bool, true, false, ℤ, pos, negsuc, pos_part, ◌-ℤ◌, wrap, Option,
  none, some, List, [], ◌∷◌, length, get_elem?, ◌==◌, if◌then◌else◌, Computation, pure, halt, ◌>>=◌,
  abandoned, out_of_bounds,
}
use rcpp_deep_state.DeepState.Runtime.{Runtime, half, int, uint}
use rcpp_deep_state.DeepState.Range.{signed_in_range, unsigned_in_range}

-- `arr[i]`, for an `int` or an `unsigned` index: outside the array it is undefined.
unfoldable pub index_array : {S A : Type 0} → List A → ℤ → Computation S A
index_array xs (negsuc n) = halt (out_of_bounds (negsuc n) (length xs))
index_array xs (pos i) = elim (get_elem? xs i) [
  | some a ↦ pure a
  | none ↦ halt (out_of_bounds (pos i) (length xs))
]

module _ (rt : Runtime) where
  open rt use {State}

  -- `Minimize(val)` at a `uint32_t`.
  unfoldable pub minimize : ℕ → Computation State ℕ
  minimize v s = pure (rt.min_uint v s).0 (rt.min_uint v s).1

  -- The loop of `Pump` with `n` rounds left, and the minimum that it returns after the last.
  unfoldable pub pump_rounds : ℕ → ℕ → Computation State ℕ
  unfolding minimize
  pump_rounds zero v = minimize v
  pump_rounds (suc n) v = do m ← minimize v; (if v == m then pure m else pump_rounds n v)

  unfoldable pub pump : ℕ → ℕ → Computation State ℕ
  unfolding pump_rounds
  pump v max s =
      if rt.is_symbolic_uint v s
      then (if max == 0 then halt abandoned else pump_rounds (max - 1) v) s
      else pure v s

  -- The index that `NoSwarmOneOf(funcs...)` takes among `n` functions; `n - 1` is an `unsigned`.
  unfoldable pub one_of_index : ℕ → Computation State ℕ
  unfolding unsigned_in_range pump
  one_of_index n = do index ← unsigned_in_range rt uint 0 ((n + 2 ^ 32 - 1) % 2 ^ 32); pump index n

  -- `NoSwarmOneOf(funcs...)`: runs one of the functions.
  unfoldable pub one_of : {A : Type 0} → List (Computation State A) → Computation State A
  unfolding one_of_index index_array
  one_of funcs = do i ← one_of_index (length funcs); f ← index_array funcs (pos i); f

  -- `NoSwarmOneOf(T (&arr)[len])`.
  unfoldable pub one_of_array : {A : Type 0} → List A → Computation State A
  unfolding signed_in_range index_array
  one_of_array xs =
      if length xs == 0
      then halt abandoned
      else (do i ← signed_in_range rt int (pos 0) (pos (length xs - 1)); index_array xs i)

  -- `NoSwarmOneOf(const std::vector<T> &arr)`: the size is converted to an `int`.
  unfoldable pub one_of_vector : {A : Type 0} → List A → Computation State A
  unfolding signed_in_range index_array wrap
  one_of_vector xs = if length xs == 0 then halt abandoned else (do
    i ← signed_in_range rt int (pos 0) (wrap (half int) (pos (length xs - 1)))
    index_array xs i)

  -- `NoSwarmOneOf(const char *str)`; `none` is the null pointer.
  unfoldable pub one_of_str : Option (List ℕ) → Computation State ℕ
  unfolding one_of_vector
  one_of_str none = halt abandoned
  one_of_str (some xs) = one_of_vector xs

  -- `DeepState_CStr_C`.
  abbrev pub c_str : ℕ → Option (List ℕ) → Computation State (List ℕ)
  c_str n allowed s = pure (rt.c_str n allowed s).0 (rt.c_str n allowed s).1

  -- `DeepState_NoSwarmCStrUpToLen`: `max_len` is converted to a `uint32_t`, and so is the bound of
  -- `Pump`.
  unfoldable pub c_str_up_to_len : ℕ → Option (List ℕ) → Computation State (List ℕ)
  unfolding unsigned_in_range pump
  c_str_up_to_len max_len allowed = do
    len ← unsigned_in_range rt uint 0 (max_len % 2 ^ 32)
    n ← pump len ((max_len + 1) % 2 ^ 32)
    c_str n allowed
