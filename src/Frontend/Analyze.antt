-- ===== src/Frontend/Analyze.antt =====
-- Running the saved inputs of a function under valgrind (R/analyze_binary_one.R). Valgrind, and the
-- reading of its log, are parameters.
pub mod Inputs
pub mod Executable
pub mod Package
use rcpp_deep_state.Base.{
  ℕ, suc, zero, leb, ltb, ℤ, pos, negsuc, Bool, true, false, not, ◌&&◌, Option, none, some, List,
  [], ◌∷◌, ◌++◌, codes, length, take, has_substring, gsub_by, if◌then◌else◌,
}
use rcpp_deep_state.Frontend.Types.{Text}
use rcpp_deep_state.Frontend.Harness.{Sep}
use rcpp_deep_state.Frontend.TestNames.{analyzed_test}

-- `max_inputs`: the text "all", or a number.
pub data Limit : Type 0 where
  all : Limit
  at_most : ℤ → Limit

-- `files[1:n]` of a vector of at least n; a negative number among the subscripts is an error.
unfoldable pub first : ℤ → List Text → Option (List Text)
first (pos zero) files = some (take 1 files)
first (pos (suc n)) files = some (take (suc n) files)
first (negsuc n) files = none

-- `max_inputs <= length(bin.files)`.
abbrev pub is_within : ℤ → ℕ → Bool
is_within (pos n) length = leb n length
is_within (negsuc n) length = true

-- `bin.files[1:3]` where there are more.
abbrev pub first_three : List Text → List Text
first_three files = if ltb 3 (length files) then take 3 files else files

unfoldable pub select : Limit → List Text → Option (List Text)
unfolding first
select all bin_files = some (first_three bin_files)
select (at_most n) bin_files =
    if is_within n (length bin_files) && ltb 0 (length bin_files)
    then first n bin_files
    else some (first_three bin_files)

-- `exec`, for a file in the directory of that name.
unfoldable pub exec : Text → Text
unfolding gsub_by
exec dir = codes "./" ++ gsub_by (codes "_output") (codes "_DeepState_TestHarness") dir

-- A run under valgrind: its exit code, the lines of its output, and the table of its log.
pub record Run (Table : Type 0) : Type 0 where
  pub exit_code : ℕ
  pub valgrind_log_content : List Text
  pub logtable : Table

-- A row of the final table.
pub record Row (Table : Type 0) : Type 0 where
  pub binaryfile : Text
  pub logtable : Table

abbrev pub is_zero : ℕ → Bool
is_zero zero = true
is_zero (suc n) = false

-- `all(grepl(message, valgrind_log_content)==FALSE)`.
unfoldable pub fuzzing_crash : Text → List Text → Bool
fuzzing_crash message [] = true
fuzzing_crash message (l ∷ ls) = not (has_substring l message) && fuzzing_crash message ls

module _ {Table : Type 0} (valgrind : Text → Text → Text → Run Table) where
  -- `deepstate_analyze_file` on a file that exists in the directory; `none` where it stops.
  unfoldable pub analyze_file : Text → Text → Text → Option (Row Table)
  unfolding fuzzing_crash exec
  analyze_file packagename dir path =
      let run : Run Table = valgrind (exec dir) path (analyzed_test packagename) in
      if not (is_zero run.exit_code)
        && fuzzing_crash (codes "Initialized test input buffer") run.valgrind_log_content
      then none
      else some (record { binaryfile = path; logtable = run.logtable })

  abbrev pub cons_row : Option (Row Table) → Option (List (Row Table)) → Option (List (Row Table))
  cons_row (some r) (some rs) = some (r ∷ rs)
  cons_row _ _ = none

  unfoldable pub analyze_all : Text → Text → List Text → Option (List (Row Table))
  unfolding analyze_file
  analyze_all packagename dir [] = some []
  analyze_all packagename dir (path ∷ paths) =
      cons_row (analyze_file packagename dir path) (analyze_all packagename dir paths)

  -- `deepstate_analyze_fun`: the rows; no file gives a message and no row.
  unfoldable pub analyze_fun : Text → Text → Limit → List Text → Option (List (Row Table))
  unfolding select analyze_all
  analyze_fun packagename dir max_inputs [] = some []
  analyze_fun packagename dir max_inputs (b ∷ bs) = elim (select max_inputs (b ∷ bs)) [
    | none ↦ none
    | some paths ↦ analyze_all packagename dir paths
  ]
