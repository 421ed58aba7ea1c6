-- ===== src/Frontend/PackageDetails/Scan.antt =====
-- The scan on the lines of a function, as Rcpp::compileAttributes writes them.
use mathlib.Core.List.{append_assoc}
use rcpp_deep_state.Base.{
  ℕ, suc, ◌+◌, ◌≡◌, refl, ap, ap₂, sym, ◌∙◌, false, Option, none, some, List, [], ◌∷◌, ◌++◌, All,
  map, codes, contains, length, length-append, if_of_false, arith,
}
use rcpp_deep_state.Frontend.Types.{Text}
use rcpp_deep_state.Frontend.PackageDetails.{
  trim, is_end, code_at, Details, with_code, body_at, details_at, scan_lines,
}
use rcpp_deep_state.Frontend.PackageDetails.Prototype.{prototype_of, prototype_name_lem}

-- A function in the file; `sexp` is the line with SEXP.
pub record Export : Type 0 where
  pub return_type : Text
  pub fun_name : Text
  pub parameters : Text
  pub sexp : Text
  pub code : List Text

abbrev after_sexp : Export → List Text → List Text
after_sexp e more = codes "BEGIN_RCPP" ∷ (e.code ++ (codes "END_RCPP" ∷ codes "}" ∷ more))

abbrev pub export_lines : Export → List Text → List Text
export_lines e more =
    (codes "// " ++ e.fun_name)
    ∷ prototype_of e.return_type e.fun_name e.parameters
    ∷ e.sexp
    ∷ after_sexp e more

-- The file after its first line.
abbrev pub exports : List Export → List Text
exports [] = []
exports (e ∷ es) = export_lines e (exports es)

-- A name without spaces and parentheses, parameters without an opening one, and code before END_RCPP.
abbrev pub IsExport : Export → Type 0
IsExport e =
    (contains e.fun_name b' ' ≡ false)
    × (contains e.fun_name b'(' ≡ false)
    × (contains e.parameters b'(' ≡ false)
    × All (λ l. is_end l ≡ false) e.code

abbrev pub details_of : Export → Details
details_of e = record {
  fun_name = e.fun_name;
  prototype = prototype_of e.return_type e.fun_name e.parameters;
  code = e.code;
}

code_at_lem :
    (code more : List Text)
    → All (λ l. is_end l ≡ false) code
    → code_at (code ++ (codes "END_RCPP" ∷ more)) ≡ some (code, suc (length code))
unfolding code_at trim
code_at_lem [] more h = refl
code_at_lem (l ∷ code) more h =
    let rest = code_at (code ++ (codes "END_RCPP" ∷ more)) in
    let next : Option (List Text × ℕ) → Option (List Text × ℕ) =
      λ o. elim o [ none ↦ none | some r ↦ some (l ∷ r.0, suc r.1) ] in
    if_of_false (is_end l) (some ([], 1)) (next rest) h.0 ∙ ap next (code_at_lem code more h.1)

details_at_lem :
    (e : Export) (more : List Text)
    → IsExport e
    → details_at (export_lines e more) ≡ some (details_of e, 1 + suc (length e.code))
unfolding details_at
details_at_lem e more (no_space, no_paren, plain, code) =
    let prototype : Text = prototype_of e.return_type e.fun_name e.parameters in
    ap (λ o. elim o [ none ↦ none | some name ↦ body_at name prototype (after_sexp e more) ])
      (prototype_name_lem e.return_type e.fun_name e.parameters no_space no_paren plain)
    ∙ ap (with_code e.fun_name prototype 1) (code_at_lem e.code (codes "}" ∷ more) code)

skip_lines : (u ls : List Text) (n : ℕ) → scan_lines (length u + n) (u ++ ls) ≡ scan_lines n ls
unfolding scan_lines
skip_lines [] ls n = ap (λ k. scan_lines k ls) (omega arith)
skip_lines (l ∷ u) ls n =
    let one_more : length (l ∷ u) + n ≡ suc (length u + n) = omega arith in
    ap (λ k. scan_lines k (l ∷ (u ++ ls))) one_more ∙ skip_lines u ls n

scan_not_found :
    (l : Text) (ls : List Text)
    → details_at (l ∷ ls) ≡ none
    → scan_lines 0 (l ∷ ls) ≡ scan_lines 0 ls
unfolding scan_lines
scan_not_found l ls h =
    ap (λ o. elim o [ none ↦ scan_lines 0 ls | some m ↦ m.0 ∷ scan_lines (2 + m.1) ls ]) h

scan_found :
    (l : Text) (ls : List Text) (m : Details × ℕ)
    → details_at (l ∷ ls) ≡ some m
    → scan_lines 0 (l ∷ ls) ≡ m.0 ∷ scan_lines (2 + m.1) ls
unfolding scan_lines
scan_found l ls m h =
    ap (λ o. elim o [ none ↦ scan_lines 0 ls | some n ↦ n.0 ∷ scan_lines (2 + n.1) ls ]) h

brace_not_comment : (ls : List Text) → details_at (codes "}" ∷ ls) ≡ none
unfolding details_at
brace_not_comment [] = refl
brace_not_comment (p ∷ []) = refl
brace_not_comment (p ∷ s ∷ ls) = refl

scan-export_lines :
    (e : Export) (more : List Text)
    → IsExport e
    → scan_lines 0 (export_lines e more) ≡ details_of e ∷ scan_lines 0 more
scan-export_lines e more h =
    let prototype : Text = prototype_of e.return_type e.fun_name e.parameters in
    let ending : List Text = codes "END_RCPP" ∷ [] in
    let after : List Text = codes "}" ∷ more in
    let u : List Text = prototype ∷ e.sexp ∷ codes "BEGIN_RCPP" ∷ (e.code ++ ending) in
    let lengths : 2 + (1 + suc (length e.code)) ≡ length u + 0 =
      grind (arith, length-append e.code ending) in
    let texts : prototype ∷ e.sexp ∷ after_sexp e more ≡ u ++ after =
      ap (λ ls. prototype ∷ e.sexp ∷ codes "BEGIN_RCPP" ∷ ls)
        (sym (append_assoc e.code ending after)) in
    scan_found (codes "// " ++ e.fun_name) (prototype ∷ e.sexp ∷ after_sexp e more) _
      (details_at_lem e more h)
    ∙ ap (λ ds. details_of e ∷ ds)
        (ap₂ scan_lines lengths texts
          ∙ (skip_lines u after 0 ∙ scan_not_found (codes "}") more (brace_not_comment more)))

pub scan-exports :
    (es : List Export) → All IsExport es → scan_lines 0 (exports es) ≡ map details_of es
unfolding scan_lines
scan-exports [] h = refl
scan-exports (e ∷ es) h =
    scan-export_lines e (exports es) h.0 ∙ ap (λ ds. details_of e ∷ ds) (scan-exports es h.1)
