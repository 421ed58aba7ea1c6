-- ===== src/Frontend/Draw/Laws.antt =====
-- A harness draws a value of the right type for each argument.
use rcpp_deep_state.Base.{
  ◌^◌, ◌≤◌, ◌≡◌, refl, ap₂, true, pos, IsBetween, IsRepresentable, Option, some, List, [], ◌∷◌, All,
  length, CutIf, Computation, Meets, Meets-bind, Meets-weaken, pure, ◌>>=◌,
}
use rcpp_deep_state.Source.{Source}
use rcpp_deep_state.Generator.Scalars.{random_int, random_double, random_float, random_char}
use rcpp_deep_state.Generator.Vectors.{random_numeric_vector, random_integer_vector}
use rcpp_deep_state.Generator.Matrices.{random_numeric_matrix, random_integer_matrix, random_mat}
use rcpp_deep_state.Generator.Texts.{random_character_vector, random_string}
use rcpp_deep_state.Generator.Vectors.Empty.{
  FaultsIfEmpty, cut_faults, random_numeric_vector_lem, random_integer_vector_lem,
}
use rcpp_deep_state.Generator.Matrices.Laws.{IsSmallMatrix}
use rcpp_deep_state.Generator.Matrices.Extents.{
  random_numeric_matrix_lem, random_integer_matrix_lem,
}
use rcpp_deep_state.Generator.Matrices.Mat.{IsMat, random_mat_lem}
use rcpp_deep_state.Generator.Texts.Laws.{
  IsWord, IsCell, random_string_lem, random_character_vector_lem,
}
use rcpp_deep_state.Frontend.Types.{
  Text, types_table, is_allowed, type_arg, args_of, Argument, unsupported_datatypes,
}
use rcpp_deep_state.Frontend.Types.Laws.{allowed_elim, IsAllowed, unsupported-IsAllowed}
use rcpp_deep_state.Frontend.Draw.{
  Kind, int, double, string, numeric_vector, integer_vector, numeric_matrix, integer_matrix,
  character_vector, mat, char, float, Generator, header, find, Value, of_int, of_char, of_double,
  of_float, of_string, of_doubles, of_ints, of_double_matrix, of_mat, of_int_matrix, of_strings,
  draw, draw_all, cons_kind, kinds,
}

-- The header has a generator of that name, with the parameters for a range that the table gives.
abbrev pub HasGenerator : Text → Type 0
HasGenerator t =
    (g : Generator) × (find t header ≡ some g) × (g.name ≡ t) × (g.parameters ≡ args_of t)

-- For each allowed datatype RcppDeepState.h has a generator of that name, and the range
-- parameters that types_table gives for it are those of the generator.
pub allowed-HasGenerator : (t : Text) → is_allowed t types_table ≡ true → HasGenerator t
unfolding find args_of
allowed-HasGenerator t h = allowed_elim HasGenerator t types_table h (
  (_, refl, refl, refl),
  (
    (_, refl, refl, refl),
    (
      (_, refl, refl, refl),
      (
        (_, refl, refl, refl),
        (
          (_, refl, refl, refl),
          (
            (_, refl, refl, refl),
            (
              (_, refl, refl, refl),
              (
                (_, refl, refl, refl),
                ((_, refl, refl, refl), ((_, refl, refl, refl), ((_, refl, refl, refl), tt))),
              ),
            ),
          ),
        ),
      ),
    ),
  ),
)

kinds_of_allowed :
    (rows : List Argument) → All IsAllowed rows → (ks : List Kind) × (kinds rows ≡ some ks)
unfolding kinds
kinds_of_allowed [] p = ([], refl)
kinds_of_allowed (a ∷ rows) p =
    let (g, found, _, _) = allowed-HasGenerator (type_arg a.argument_type) p.0 in
    let (ks, rest) = kinds_of_allowed rows p.1 in (g.kind ∷ ks, ap₂ cons_kind found rest)

module _ (src : Source) where
  open src use {State, symbolic, Double, Float}

  -- The values of a type, with what the generator promises of them.
  abbrev pub HasType : Kind → Value Double Float → Type 0
  HasType int (of_int z) = IsRepresentable (2 ^ 31) z
  HasType char (of_char z) = IsRepresentable (2 ^ 7) z
  HasType double (of_double x) = Unit
  HasType float (of_float x) = Unit
  HasType string (of_string s) = IsWord 50 s
  HasType numeric_vector (of_doubles v) = length v ≤ 100
  HasType integer_vector (of_ints v) = length v ≤ 100
  HasType numeric_matrix (of_double_matrix m) =
      IsSmallMatrix (src.IsDoubleBetween (src.of_int (pos 0)) src.huge) m
  HasType integer_matrix (of_int_matrix m) = IsSmallMatrix (IsBetween (pos 0) (pos 100)) m
  HasType mat (of_mat m) = IsMat src m
  HasType character_vector (of_strings v) = (length v ≤ 100) × All (IsCell 20) v
  HasType k v = ⊥

  abbrev pub HaveTypes : List Kind → List (Value Double Float) → Type 0
  HaveTypes [] [] = Unit
  HaveTypes (k ∷ ks) (v ∷ vs) = HasType k v × HaveTypes ks vs
  HaveTypes _ _ = ⊥

  give-lem :
      {A : Type 0} (m : Computation State A) (f : A → Value Double Float) (P : A → Type 0)
      (k : Kind)
      → Meets (FaultsIfEmpty symbolic) m P
      → ((a : A) → P a → HasType k (f a))
      → Meets (FaultsIfEmpty symbolic) (m >>= λ a. pure (f a)) (HasType k)
  give-lem m f P k h c =
      Meets-bind (FaultsIfEmpty symbolic) P (HasType k) m (λ a. pure (f a)) h (λ a p s. c a p)

  within :
      {A : Type 0} (m : Computation State A) (P : A → Type 0)
      → Meets (CutIf symbolic) m P
      → Meets (FaultsIfEmpty symbolic) m P
  within m P h =
      Meets-weaken (CutIf symbolic) (FaultsIfEmpty symbolic) P P m (cut_faults symbolic) (λ a p. p)
        h

  -- Every generator returns a value of its type.
  draw-HasType : (k : Kind) → Meets (FaultsIfEmpty symbolic) (draw src k) (HasType k)
  unfolding draw random_int random_double random_float random_char
  draw-HasType int =
      give-lem src.int of_int (IsRepresentable (2 ^ 31)) int
        (within src.int (IsRepresentable (2 ^ 31)) src.int-representable) (λ a p. p)
  draw-HasType double =
      give-lem src.double of_double (λ x. Unit {0}) double
        (within src.double (λ x. Unit {0}) src.double-returns) (λ a p. p)
  draw-HasType string =
      give-lem (random_string src) of_string (IsWord 50) string
        (within (random_string src) (IsWord 50) (random_string_lem src)) (λ a p. p)
  draw-HasType numeric_vector =
      give-lem (random_numeric_vector src) of_doubles (λ v. length v ≤ 100) numeric_vector
        (random_numeric_vector_lem src) (λ a p. p)
  draw-HasType integer_vector =
      give-lem (random_integer_vector src) of_ints (λ v. length v ≤ 100) integer_vector
        (random_integer_vector_lem src) (λ a p. p)
  draw-HasType numeric_matrix =
      let P = IsSmallMatrix (src.IsDoubleBetween (src.of_int (pos 0)) src.huge) in
      give-lem (random_numeric_matrix src) of_double_matrix P numeric_matrix
        (within (random_numeric_matrix src) P (random_numeric_matrix_lem src)) (λ a p. p)
  draw-HasType integer_matrix =
      let P = IsSmallMatrix (IsBetween (pos 0) (pos 100)) in
      give-lem (random_integer_matrix src) of_int_matrix P integer_matrix
        (within (random_integer_matrix src) P (random_integer_matrix_lem src)) (λ a p. p)
  draw-HasType character_vector =
      let P = λ (v : List (Option Text)). (length v ≤ 100) × All (IsCell 20) v in
      give-lem (random_character_vector src) of_strings P character_vector
        (within (random_character_vector src) P (random_character_vector_lem src)) (λ a p. p)
  draw-HasType mat =
      give-lem (random_mat src) of_mat (IsMat src) mat
        (within (random_mat src) (IsMat src) (random_mat_lem src)) (λ a p. p)
  draw-HasType char =
      give-lem src.char of_char (IsRepresentable (2 ^ 7)) char
        (within src.char (IsRepresentable (2 ^ 7)) src.char-representable) (λ a p. p)
  draw-HasType float =
      give-lem src.float of_float (λ x. Unit {0}) float
        (within src.float (λ x. Unit {0}) src.float-returns) (λ a p. p)

  draw_all-HaveTypes :
      (ks : List Kind) → Meets (FaultsIfEmpty symbolic) (draw_all src ks) (HaveTypes ks)
  unfolding draw_all
  draw_all-HaveTypes [] = λ s. tt
  draw_all-HaveTypes (k ∷ ks) =
      let R = FaultsIfEmpty symbolic in
      Meets-bind R (HasType k) (HaveTypes (k ∷ ks)) (draw src k)
        (λ v. draw_all src ks >>= λ vs. pure (v ∷ vs)) (draw-HasType k)
        (λ v p.
          Meets-bind R (HaveTypes ks) (HaveTypes (k ∷ ks)) (draw_all src ks) (λ vs. pure (v ∷ vs))
            (draw_all-HaveTypes ks) (λ vs q s. (p, q)))

  -- For arguments without an unsupported datatype, over every Source, INPUTS calls a generator of
  -- the header for each, and draws a value of the type for each, of which what the generator
  -- promises holds, or faults on an empty vector, or is cut by symbolic execution.
  pub supported-draw_all :
      (rows : List Argument)
      → unsupported_datatypes rows ≡ []
      → (ks : List Kind) × (kinds rows ≡ some ks)
        × Meets (FaultsIfEmpty symbolic) (draw_all src ks) (HaveTypes ks)
  supported-draw_all rows h =
      let (ks, found) = kinds_of_allowed rows (unsupported-IsAllowed rows h) in
      (ks, found, draw_all-HaveTypes ks)
