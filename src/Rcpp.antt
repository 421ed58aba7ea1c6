-- ===== src/Rcpp.antt =====
-- The containers that the generators fill: an Rcpp vector or matrix is the list of its elements (a
-- matrix column by column, reached through one index), and a new one holds zeros.
pub mod Elements
pub mod Laws
use rcpp_deep_state.Base.{
  ℕ, zero, suc, ◌*◌, Bool, ◌||◌, ℤ, pos, negsuc, pos_part, ltb_ℤ, List, length, set, replicate, ltb,
  if◌then◌else◌, Computation, pure, halt, ◌>>=◌, bad_length, out_of_bounds,
}

-- `Rcpp::NumericVector v(n)`: R refuses a negative length.
abbrev pub new_vector : {S A : Type 0} → A → ℤ → Computation S (List A)
new_vector a (pos n) = pure (replicate n a)
new_vector a (negsuc n) = halt (bad_length (negsuc n))

-- `Rcpp::NumericMatrix m(rows, columns)`: R refuses a negative extent.
abbrev pub new_matrix : {S A : Type 0} → A → ℤ → ℤ → Computation S (List A)
new_matrix a (pos r) (pos c) = pure (replicate (r * c) a)
new_matrix a (pos r) (negsuc c) = halt (bad_length (negsuc c))
new_matrix a (negsuc r) c = halt (bad_length (negsuc r))

-- `v[i] = x`, undefined at an index that is not inside the vector.
unfoldable pub write : {S A : Type 0} → List A → ℤ → A → Computation S (List A)
write v (negsuc n) x = halt (out_of_bounds (negsuc n) (length v))
write v (pos i) x =
    if ltb i (length v) then pure (set v i x) else halt (out_of_bounds (pos i) (length v))

-- `for (i = first; …; i++) v[i] = draw();` for `rounds` rounds.
unfoldable pub fill_from :
    {S A : Type 0} → ℕ → ℕ → Computation S A → List A → Computation S (List A)
unfolding write
fill_from zero i draw v = pure v
fill_from (suc rounds) i draw v = do
  x ← draw
  v' ← write v (pos i) x
  fill_from rounds (suc i) draw v'

-- `for (int i = 0; i < n; i++) v[i] = draw();`
unfoldable pub fill : {S A : Type 0} → ℤ → Computation S A → List A → Computation S (List A)
unfolding fill_from
fill n = fill_from (pos_part n) 0

-- `for (int i = 0; i < rounds; i++) v[at()] = value();`: the value is drawn first (C++17).
unfoldable pub inject :
    {S A : Type 0} → ℕ → Computation S ℤ → Computation S A → List A → Computation S (List A)
unfolding write
inject zero at value v = pure v
inject (suc rounds) at value v = do x ← value; i ← at; v' ← write v i x; inject rounds at value v'
