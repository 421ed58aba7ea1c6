-- ===== src/Frontend/Types/Laws.antt =====
-- Which argument types are allowed.
use rcpp_deep_state.Base.{
  ◌≡◌, refl, sym, subst, Bool, true, false, not, List, [], ◌∷◌, All, arith, str_eq, str_eq_lem,
  Bool-cases, inl, inr, if◌then◌else◌,
}
use rcpp_deep_state.Frontend.Types.{
  Text, Row, types_table, is_allowed, type_arg, Argument, unsupported_datatypes,
}

-- What holds of each type of the table holds of an allowed one.
pub allowed_elim :
    (P : Text → Type 0) (t : Text) (rows : List Row)
    → is_allowed t rows ≡ true
    → All (λ r. P r.ctype) rows
    → P t
unfolding is_allowed
allowed_elim P t [] h p = cc
allowed_elim P t (r ∷ rows) h p = elim (Bool-cases (str_eq t r.ctype)) [
  | inl same ↦ subst P (sym (str_eq_lem t r.ctype same)) p.0
  | inr other ↦ allowed_elim P t rows (ground arith) p.1
]

abbrev pub IsAllowed : Argument → Type 0
IsAllowed a = is_allowed (type_arg a.argument_type) types_table ≡ true

cons_unless :
    (b : Bool) (t : Text) (ts : List Text)
    → (if not b then t ∷ ts else ts) ≡ []
    → (b ≡ true) × (ts ≡ [])
cons_unless true t ts h = (refl, h)
cons_unless false t ts h = cc

-- No type is unsupported only if all are allowed.
pub unsupported-IsAllowed :
    (rows : List Argument) → unsupported_datatypes rows ≡ [] → All IsAllowed rows
unfolding unsupported_datatypes
unsupported-IsAllowed [] h = tt
unsupported-IsAllowed (a ∷ rows) h =
    let (first, rest) =
      cons_unless (is_allowed (type_arg a.argument_type) types_table) (type_arg a.argument_type)
        (unsupported_datatypes rows) h in
    (first, unsupported-IsAllowed rows rest)

pub IsAllowed-unsupported :
    (rows : List Argument) → All IsAllowed rows → unsupported_datatypes rows ≡ []
unfolding unsupported_datatypes
IsAllowed-unsupported [] p = refl
IsAllowed-unsupported (a ∷ rows) p = rw (p.0, IsAllowed-unsupported rows p.1) refl
