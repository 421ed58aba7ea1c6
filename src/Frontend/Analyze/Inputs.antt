-- ===== src/Frontend/Analyze/Inputs.antt =====
-- Which saved inputs of a function are analysed.
use rcpp_deep_state.Base.{
  codes, ◌≤◌, ltb, ◌≡◌, ap, sym, ◌∙◌, ◌↔◌, Bool, true, not, ◌&&◌, ◌||◌, subst, some, List, [], ◌∷◌,
  length, take, length-take, Bool-cases, inl, inr, if_of_true, if_of_false, arith,
}
use mathlib.Core.Option.{some-injective}
use rcpp_deep_state.Frontend.Types.{Text}
use rcpp_deep_state.Frontend.TestNames.{analyzed_test}
use rcpp_deep_state.Frontend.Analyze.{
  all, first_three, select, Run, Row, fuzzing_crash, exec, is_zero,
}

three-le : (files : List Text) → first_three files ≡ files → length files ≤ 3
three-le files e = elim (Bool-cases (ltb 3 (length files))) [
  | inl more ↦
      let same : take 3 files ≡ files =
        sym (if_of_true (ltb 3 (length files)) (take 3 files) files more) ∙ e in
      subst (λ (fs : List Text). length fs ≤ 3) same (length-take 3 files)
  | inr few ↦ ground arith
]

-- With max_inputs "all" all inputs are analysed exactly if there are at most three.
pub select_all_iff : (files : List Text) → (select all files ≡ some files) ↔ (length files ≤ 3)
unfolding select
select_all_iff files = (
  λ e. three-le files (some-injective _ _ e),
  λ h.
      ap (λ (fs : List Text). some fs)
        (if_of_false (ltb 3 (length files)) (take 3 files) files (ground arith)),
)

module _ {Table : Type 0} (valgrind : Text → Text → Text → Run Table) (packagename dir : Text) where
  abbrev run_of : Text → Run Table
  run_of path = valgrind (exec dir) path (analyzed_test packagename)

  -- The harness left with the code 0, or the driver had read the input.
  abbrev pub is_analyzed : Text → Bool
  is_analyzed path =
      is_zero (run_of path).exit_code
      || not
          (fuzzing_crash (codes "Initialized test input buffer") (run_of path).valgrind_log_content)

  abbrev pub row_of : Text → Row Table
  row_of path = record { binaryfile = path; logtable = (run_of path).logtable }

  abbrev pub are_analyzed : List Text → Bool
  are_analyzed [] = true
  are_analyzed (p ∷ ps) = is_analyzed p && are_analyzed ps
