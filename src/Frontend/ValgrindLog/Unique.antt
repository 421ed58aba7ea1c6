-- ===== src/Frontend/ValgrindLog/Unique.antt =====
-- R's `unique` on the rows of a table.
use mathlib.Core.Bool.{true≢false}
use rcpp_deep_state.Base.{
  ◌≡◌, refl, ap, sym, ◌∙◌, subst, Bool, true, false, ◌&&◌, ◌||◌, ◌↔◌, ◌⊎◌, inl, inr, Option, none,
  some, List, [], ◌∷◌, str_eq, str_eq_lem, str_eq_refl, Bool-cases, arith,
}
use rcpp_deep_state.Frontend.Types.{Text}
use rcpp_deep_state.Frontend.ValgrindLog.{Row, option_eq, row_eq, has_row, unique}

-- A member of a list, at one of its places.
abbrev pub IsMember : {A : Type 0} → A → List A → Type 0
IsMember x [] = ⊥
IsMember x (y ∷ ys) = (x ≡ y) ⊎ IsMember x ys

-- No row is there twice.
abbrev pub AreDifferent : List Row → Type 0
AreDifferent [] = Unit
AreDifferent (r ∷ rows) = (IsMember r rows → ⊥) × AreDifferent rows

option_eq_lem : (s t : Option Text) → option_eq s t ≡ true → s ≡ t
option_eq_lem none none h = refl
option_eq_lem none (some t) h = cc
option_eq_lem (some s) none h = cc
option_eq_lem (some s) (some t) h = ap some (str_eq_lem s t h)

option_eq_refl : (s : Option Text) → option_eq s s ≡ true
option_eq_refl none = refl
option_eq_refl (some s) = str_eq_refl s

and_left : (a b : Bool) → (a && b) ≡ true → (a ≡ true) × (b ≡ true)
and_left true b h = (refl, h)
and_left false b h = cc

and_true : (a b : Bool) → a ≡ true → b ≡ true → (a && b) ≡ true
and_true a b h k = ground arith

abbrev row : Option Text → Option Text → Text → Text → Option Text → Row
row k m f a t = record {
  err_kind = k;
  message = m;
  file_line = f;
  address_msg = a;
  address_trace = t;
}

row_eq_lem : (r q : Row) → row_eq r q ≡ true → r ≡ q
row_eq_lem r q h =
    let (k, h₁) = and_left (option_eq r.err_kind q.err_kind) _ h in
    let (m, h₂) = and_left (option_eq r.message q.message) _ h₁ in
    let (f, h₃) = and_left (str_eq r.file_line q.file_line) _ h₂ in
    let (a, t) = and_left (str_eq r.address_msg q.address_msg) _ h₃ in
    let ek = option_eq_lem r.err_kind q.err_kind k in
    let em = option_eq_lem r.message q.message m in
    let ef = str_eq_lem r.file_line q.file_line f in
    let ea = str_eq_lem r.address_msg q.address_msg a in
    let et = option_eq_lem r.address_trace q.address_trace t in
    let same_fields : row r.err_kind r.message r.file_line r.address_msg r.address_trace
        ≡ row q.err_kind q.message q.file_line q.address_msg q.address_trace =
      cc in
    same_fields

row_eq_refl : (r : Row) → row_eq r r ≡ true
row_eq_refl r = and_true _ _ (option_eq_refl r.err_kind) (
    and_true _ _ (option_eq_refl r.message) (
      and_true _ _ (str_eq_refl r.file_line)
        (and_true _ _ (str_eq_refl r.address_msg) (option_eq_refl r.address_trace))))

has_row_of : (r : Row) (rows : List Row) → IsMember r rows → has_row r rows ≡ true
has_row_of r [] m = absurd m
has_row_of r (q ∷ rows) (inl e) =
    ap (λ b. b || has_row r rows) (ap (λ x. row_eq r x) (sym e) ∙ row_eq_refl r)
has_row_of r (q ∷ rows) (inr m) = ground (arith, has_row_of r rows m)

has_row_lem : (r : Row) (rows : List Row) → has_row r rows ≡ true → IsMember r rows
has_row_lem r [] h = absurd (ground arith)
has_row_lem r (q ∷ rows) h = elim (Bool-cases (row_eq r q)) [
  | inl same ↦ inl (row_eq_lem r q same)
  | inr other ↦ inr (has_row_lem r rows (ground arith))
]

abbrev unique_step : Row → List Row → Bool → List Row
unique_step r rest seen = elim seen [ true ↦ rest | false ↦ r ∷ rest ]

-- What is kept are the rows that have not been seen.
from_unique :
    (x : Row) (seen rows : List Row)
    → IsMember x (unique seen rows)
    → IsMember x rows × (has_row x seen ≡ false)
unfolding unique
from_unique x seen [] m = absurd m
from_unique x seen (r ∷ rows) m = elim (Bool-cases (has_row r seen)) [
  | inl old ↦
      let (later, fresh) =
        from_unique x (r ∷ seen) rows
          (subst (λ b. IsMember x (unique_step r (unique (r ∷ seen) rows) b)) old m) in
      (inr later, ground arith)
  | inr new ↦ elim (subst (λ b. IsMember x (unique_step r (unique (r ∷ seen) rows) b)) new m) [
    | inl e ↦ (inl e, ap (λ y. has_row y seen) e ∙ new)
    | inr later ↦
        let (more, fresh) = from_unique x (r ∷ seen) rows later in (inr more, ground arith)
  ]
]

in_rest :
    (x r : Row) (rest : List Row) (seen : Bool)
    → IsMember x rest
    → IsMember x (unique_step r rest seen)
in_rest x r rest true m = m
in_rest x r rest false m = inr m

to_unique :
    (x : Row) (seen rows : List Row)
    → IsMember x rows
    → has_row x seen ≡ false
    → IsMember x (unique seen rows)
unfolding unique
to_unique x seen [] m fresh = absurd m
to_unique x seen (r ∷ rows) m fresh = elim (Bool-cases (row_eq x r)) [
  | inl same ↦
      let e = row_eq_lem x r same in
      subst (λ b. IsMember x (unique_step r (unique (r ∷ seen) rows) b))
        (sym (ap (λ y. has_row y seen) (sym e) ∙ fresh)) (inl e)
  | inr other ↦
      let later : IsMember x rows = elim m [
        | inl e ↦ absurd (true≢false (sym (ap (λ y. row_eq x y) (sym e) ∙ row_eq_refl x) ∙ other))
        | inr more ↦ more
      ] in
      in_rest x r (unique (r ∷ seen) rows) (has_row r seen)
        (to_unique x (r ∷ seen) rows later (ground arith))
]

AreDifferent-step :
    (r : Row) (seen rows : List Row)
    → AreDifferent (unique (r ∷ seen) rows)
    → (b : Bool) → AreDifferent (unique_step r (unique (r ∷ seen) rows) b)
AreDifferent-step r seen rows d true = d
AreDifferent-step r seen rows d false = (
  λ m.
      let (more, fresh) = from_unique r (r ∷ seen) rows m in
      true≢false (sym (ap (λ b. b || has_row r seen) (row_eq_refl r)) ∙ fresh),
  d,
)

AreDifferent-unique : (seen rows : List Row) → AreDifferent (unique seen rows)
unfolding unique
AreDifferent-unique seen [] = tt
AreDifferent-unique seen (r ∷ rows) =
    AreDifferent-step r seen rows (AreDifferent-unique (r ∷ seen) rows) (has_row r seen)

-- `unique` keeps exactly the rows, and each one once.
pub unique_lem :
    (rows : List Row)
    → AreDifferent (unique [] rows) × ((x : Row) → IsMember x (unique [] rows) ↔ IsMember x rows)
unique_lem rows = (
  AreDifferent-unique [] rows,
  λ x. (λ m. (from_unique x [] rows m).0, λ m. to_unique x [] rows m refl),
)
