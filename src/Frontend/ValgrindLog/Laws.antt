-- ===== src/Frontend/ValgrindLog/Laws.antt =====
-- What is in the table of a log.
use rcpp_deep_state.Base.{refl, subst, ◌↔◌, ◌⊎◌, inl, inr, Option, none, some, List, [], ◌∷◌, ◌++◌}
use rcpp_deep_state.Frontend.ValgrindLog.{
  Error, SrcDir, Row, error_rows, all_rows, bind, read_valgrind_xml,
}
use rcpp_deep_state.Frontend.ValgrindLog.Unique.{IsMember, AreDifferent, unique_lem}

-- One of the errors has the row.
abbrev pub IsReported : SrcDir → List Error → Row → Type 0
IsReported src_dir errors r =
    (error : Error) × IsMember error errors × IsMember r (error_rows src_dir error)

IsMember-append :
    {A : Type 0} (x : A) (xs ys : List A) → IsMember x (xs ++ ys) ↔ (IsMember x xs ⊎ IsMember x ys)
IsMember-append x [] ys = (λ m. inr m, λ m. elim m [ inl n ↦ absurd n | inr n ↦ n ])
IsMember-append x (y ∷ xs) ys =
    let rest = IsMember-append x xs ys in
    (
      λ m. elim m [
        | inl e ↦ inl (inl e)
        | inr n ↦ elim (rest.0 n) [ inl a ↦ inl (inr a) | inr b ↦ inr b ]
      ],
      λ m. elim m [
        | inl n ↦ elim n [ inl e ↦ inl e | inr a ↦ inr (rest.1 (inl a)) ]
        | inr b ↦ inr (rest.1 (inr b))
      ],
    )

all_rows_iff :
    (src_dir : SrcDir) (errors : List Error) (r : Row)
    → IsMember r (all_rows src_dir errors) ↔ IsReported src_dir errors r
unfolding all_rows
all_rows_iff src_dir [] r = (λ m. absurd m, λ m. absurd m.1)
all_rows_iff src_dir (error ∷ errors) r =
    let rest = all_rows_iff src_dir errors r in
    let both = IsMember-append r (error_rows src_dir error) (all_rows src_dir errors) in
    (
      λ m. elim (both.0 m) [
        | inl here ↦ (error, inl refl, here)
        | inr later ↦ let (e, in_errors, in_rows) = rest.0 later in (e, inr in_errors, in_rows)
      ],
      λ m.
          let (e, in_errors, in_rows) = m in
          elim in_errors [
            | inl same ↦ both.1 (inl (subst (λ x. IsMember r (error_rows src_dir x)) same in_rows))
            | inr later ↦ both.1 (inr (rest.1 (e, later, in_rows)))
          ],
    )

-- The table is NULL and there is nothing to report, or there is, and it has that, each row once.
abbrev pub IsTableOf : SrcDir → List Error → Option (List Row) → Type 0
IsTableOf src_dir errors none = (r : Row) → IsReported src_dir errors r → ⊥
IsTableOf src_dir errors (some rows) =
    ((r : Row) × IsReported src_dir errors r)
    × AreDifferent rows
    × ((r : Row) → IsMember r rows ↔ IsReported src_dir errors r)

bind_lem :
    (src_dir : SrcDir) (errors : List Error) (rows : List Row)
    → ((r : Row) → IsMember r rows ↔ IsReported src_dir errors r)
    → IsTableOf src_dir errors (bind rows)
bind_lem src_dir errors [] h = λ r reported. (h r).1 reported
bind_lem src_dir errors (q ∷ rows) h =
    let (different, same) = unique_lem (q ∷ rows) in
    (
      (q, (h q).0 (inl refl)),
      different,
      λ r. (λ m. (h r).0 ((same r).0 m), λ m. (same r).1 ((h r).1 m)),
    )

-- For a log with src.dir.xpath the table has exactly the rows that an error reports, each once,
-- and is NULL exactly if there is none.
pub read_valgrind_xml-IsTableOf :
    (src_dir : SrcDir) (errors : List Error)
    → IsTableOf src_dir errors (read_valgrind_xml (some src_dir) errors)
unfolding read_valgrind_xml
read_valgrind_xml-IsTableOf src_dir errors =
    bind_lem src_dir errors (all_rows src_dir errors) (all_rows_iff src_dir errors)
