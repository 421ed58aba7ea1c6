-- ===== src/Frontend/Analyze/Package.antt =====
-- Analysing the saved inputs of a whole package (deepstate_harness_analyze_pkg of
-- R/analyze_binary.R). `analyze` is deepstate_analyze_fun on a folder: rows, or a stop.
use rcpp_deep_state.Base.{
  ltb, ◌&&◌, ◌≡◌, refl, ap₂, Option, none, some, List, [], ◌∷◌, ◌++◌, All, length, if◌then◌else◌,
}
use rcpp_deep_state.Frontend.Types.{Text}
use rcpp_deep_state.Frontend.Analyze.{Limit, all, at_most, is_within, first}

-- `test.files[1:testfiles]`; past the end there is NA, for which normalizePath stops.
unfoldable pub select_functions : Limit → List Text → Option (List Text)
unfolding first
select_functions all test_files = some test_files
select_functions (at_most n) test_files =
    if is_within n (length test_files) && ltb 0 (length test_files)
    then first n test_files
    else none

module _ {Row : Type 0} (analyze : Text → Option (List Row)) where
  abbrev pub append_rows : Option (List Row) → Option (List Row) → Option (List Row)
  append_rows (some rows) (some more) = some (rows ++ more)
  append_rows _ _ = none

  -- The loop and the rbind after it.
  unfoldable pub analyze_each : List Text → Option (List Row)
  analyze_each [] = some []
  analyze_each (f ∷ fs) = append_rows (analyze f) (analyze_each fs)

  unfoldable pub harness_analyze_pkg : Limit → List Text → Option (List Row)
  unfolding select_functions analyze_each
  harness_analyze_pkg testfiles test_files = elim (select_functions testfiles test_files) [
    | none ↦ none
    | some functions ↦ analyze_each functions
  ]

  abbrev pub all_rows : (Text → List Row) → List Text → List Row
  all_rows rows [] = []
  all_rows rows (f ∷ fs) = rows f ++ all_rows rows fs

  -- If no function stops, the rows of all are there in order.
  analyze_each_lem :
      (rows : Text → List Row) (functions : List Text)
      → All (λ f. analyze f ≡ some (rows f)) functions
      → analyze_each functions ≡ some (all_rows rows functions)
  unfolding analyze_each
  analyze_each_lem rows [] h = refl
  analyze_each_lem rows (f ∷ fs) h = ap₂ append_rows h.0 (analyze_each_lem rows fs h.1)

  both_given :
      (o p : Option (List Row)) (rows : List Row)
      → append_rows o p ≡ some rows
      → ((r : List Row) × (o ≡ some r)) × ((r : List Row) × (p ≡ some r))
  both_given none p rows h = cc
  both_given (some r) none rows h = cc
  both_given (some r) (some more) rows h = ((r, refl), (more, refl))

  -- Rows are given only if no function stops.
  analyze_each-All :
      (functions : List Text) (rows : List Row)
      → analyze_each functions ≡ some rows
      → All (λ f. (r : List Row) × (analyze f ≡ some r)) functions
  unfolding analyze_each
  analyze_each-All [] rows h = tt
  analyze_each-All (f ∷ fs) rows h =
      let (here, (more, later)) = both_given (analyze f) (analyze_each fs) rows h in
      (here, analyze_each-All fs more later)
