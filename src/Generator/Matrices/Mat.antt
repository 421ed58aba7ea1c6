-- ===== src/Generator/Matrices/Mat.antt =====
-- The loops of `RcppDeepState_mat()` stay inside the matrix.
use rcpp_deep_state.Base.{
  ℕ, zero, suc, ◌+◌, ◌*◌, ◌≤◌, ◌<◌, ◌≡◌, ◌∙◌, arith, ℤ, pos, negsuc, pos_part, IsBetween, List,
  length, length-set, replicate, length-replicate, lt→ltb, CutIf, Meets, Meets-bind, pure, ◌>>=◌,
}
use rcpp_deep_state.Source.{Source}
use rcpp_deep_state.Rcpp.{new_matrix}
use rcpp_deep_state.Generator.Matrices.{write_element, fill_row, fill_rows, random_mat}
use rcpp_deep_state.Generator.Matrices.Laws.{extent-IsBetween}

module _ (src : Source) where
  open src use {State, symbolic, Double}

  write_element-length :
      (rows columns n i j : ℕ) (m : List Double) (x : Double)
      → i < rows
      → j < columns
      → length m ≡ n
      → Meets (CutIf symbolic) (write_element src rows columns m i j x) (λ m'. length m' ≡ n)
  unfolding write_element
  write_element-length rows columns n i j m x h k e =
      rw (lt→ltb i rows h, lt→ltb j columns k) (λ s. length-set m (j * rows + i) x ∙ e)

  fill_row-length :
      (rows columns n i left j : ℕ) (m : List Double)
      → i < rows
      → j + left ≤ columns
      → length m ≡ n
      → Meets (CutIf symbolic) (fill_row src rows columns i left j m) (λ m'. length m' ≡ n)
  unfolding fill_row
  fill_row-length rows columns n i zero j m h k e = λ s. e
  fill_row-length rows columns n i (suc left) j m h k e =
      let P = λ (m' : List Double). length m' ≡ n in
      Meets-bind (CutIf symbolic) (λ x. Unit {0}) P src.double
        (λ x. write_element src rows columns m i j x >>= fill_row src rows columns i left (suc j))
        src.double-returns
        (λ x u.
          Meets-bind (CutIf symbolic) P P (write_element src rows columns m i j x)
            (fill_row src rows columns i left (suc j))
            (write_element-length rows columns n i j m x h (omega arith) e)
            (λ m' e'. fill_row-length rows columns n i left (suc j) m' h (omega arith) e'))

  fill_rows-length :
      (rows columns n left i : ℕ) (m : List Double)
      → i + left ≤ rows
      → length m ≡ n
      → Meets (CutIf symbolic) (fill_rows src rows columns left i m) (λ m'. length m' ≡ n)
  unfolding fill_rows
  fill_rows-length rows columns n zero i m h e = λ s. e
  fill_rows-length rows columns n (suc left) i m h e =
      let P = λ (m' : List Double). length m' ≡ n in
      Meets-bind (CutIf symbolic) P P (fill_row src rows columns i columns 0 m)
        (fill_rows src rows columns left (suc i))
        (fill_row-length rows columns n i columns 0 m (omega arith) (omega arith) e)
        (λ m' e'. fill_rows-length rows columns n left (suc i) m' (omega arith) e')

  -- A matrix of 1 to 10 rows and columns.
  abbrev pub IsMat : ℤ × ℤ × List Double → Type 0
  IsMat t =
      IsBetween (pos 1) (pos 10) t.0
      × IsBetween (pos 1) (pos 10) t.1
      × (length t.2 ≡ pos_part t.0 * pos_part t.1)

  IsMat-of_extents :
      (rows columns : ℤ)
      → IsBetween (pos 1) (pos 10) rows
      → IsBetween (pos 1) (pos 10) columns
      → Meets
          (CutIf symbolic)
          (new_matrix src.zero rows columns >>= λ m.
            fill_rows src (pos_part rows) (pos_part columns) (pos_part rows) 0 m >>= λ m'.
            pure (rows, columns, m'))
          IsMat
  IsMat-of_extents (negsuc r) c h k = absurd (omega arith)
  IsMat-of_extents (pos r) (negsuc c) h k = absurd (omega arith)
  IsMat-of_extents (pos r) (pos c) h k =
      Meets-bind (CutIf symbolic) (λ m'. length m' ≡ r * c) IsMat
        (fill_rows src r c r 0 (replicate (r * c) src.zero)) (λ m'. pure (pos r, pos c, m'))
        (fill_rows-length r c (r * c) r 0 (replicate (r * c) src.zero) (omega arith)
          (length-replicate (r * c) src.zero))
        (λ m' e s. (h, k, e))

  -- RcppDeepState_mat() sets only elements inside its matrix of 1 to 10 rows and columns, and
  -- returns unless symbolic execution cuts the path.
  pub random_mat_lem : Meets (CutIf symbolic) (random_mat src) IsMat
  unfolding random_mat
  random_mat_lem =
      let R = CutIf symbolic in
      Meets-bind R (IsBetween (pos 1) (pos 10)) IsMat (src.int_in_range (pos 1) (pos 10)) _
        (extent-IsBetween src)
        (λ rows h.
          Meets-bind R (IsBetween (pos 1) (pos 10)) IsMat (src.int_in_range (pos 1) (pos 10)) _
            (extent-IsBetween src) (λ columns k. IsMat-of_extents rows columns h k))
