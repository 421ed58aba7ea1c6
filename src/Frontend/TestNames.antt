-- ===== src/Frontend/TestNames.antt =====
-- The names of the two tests of a harness, and those that the R code asks the driver for
-- (R/fun_harness_create.R, R/fun_harness_fuzz.R, R/analyze_binary_one.R, R/analyze_binary.R).
pub mod Laws
pub mod Split
pub mod Written
pub mod Driver
use rcpp_deep_state.Base.{
  ℕ, Bool, true, false, Option, none, some, List, [], ◌∷◌, ◌++◌, codes, ◌==◌, ◌||◌, ◌&&◌, str_eq,
  has_substring, is_in, if◌then◌else◌, get_elem?,
}
use rcpp_deep_state.Frontend.Types.{Text}
use rcpp_deep_state.Frontend.Harness.{unittest}

-- `TEST(category, name)` of DeepState defines the test category_name.
abbrev pub test_name : Text → Text → Text
test_name category name = category ++ (b'_' ∷ name)

-- The two tests of the harness of a package.
abbrev pub generator_test : Text → Text
generator_test packagename = test_name (unittest packagename) (codes "generator")

abbrev pub runner_test : Text → Text
runner_test packagename = test_name (unittest packagename) (codes "runner")

-- The arguments of --input_which_test in deepstate_fuzz_fun and deepstate_analyze_file.
abbrev pub fuzzed_test : Text → Text
fuzzed_test packagename = packagename ++ codes "_generator"

abbrev pub analyzed_test : Text → Text
analyzed_test packagename = packagename ++ codes "_runner"

-- `strsplit(line, "[(|)| +|,]")`: a text ends at each of the characters ( | ) + , and the space.
unfoldable pub is_separator : ℕ → Bool
is_separator c = c == b'(' || (c == b'|' || (c == b')' || (c == b' ' || (c == b'+' || c == b','))))

-- `readLines` ends a line at each of these.
unfoldable pub is_newline : ℕ → Bool
is_newline c = c == b'\n'

-- The split at the characters of a test, with the text that has been read so far; R drops an empty
-- last text, of a line as well as of a file.
unfoldable pub split_by : (ℕ → Bool) → Text → Text → List Text
split_by is_end [] [] = []
split_by is_end (c ∷ read) [] = (c ∷ read) ∷ []
split_by is_end read (c ∷ s) = elim (is_end c) [
  | true ↦ read ∷ split_by is_end [] s
  | false ↦ split_by is_end (read ++ (c ∷ [])) s
]

-- `readLines`.
abbrev pub read_lines : Text → List Text
read_lines = split_by is_newline []

-- `split[i]`; `paste0` makes "NA" of one that is missing.
abbrev pub part : List Text → ℕ → Text
part split i = elim (get_elem? split i) [ none ↦ codes "NA" | some t ↦ t ]

-- `paste0(runner_line_split[2], "_", runner_line_split[4])`; R counts from 1.
unfoldable pub runner_harness_name : Text → Text
unfolding split_by
runner_harness_name line =
    let runner_line_split = split_by is_separator [] line in
    test_name (part runner_line_split 1) (part runner_line_split 3)

-- The line of a harness that begins the test.
unfoldable pub test_line : Text → Text → Text
test_line packagename name =
    codes "TEST(" ++ (unittest packagename ++ (codes ", " ++ (name ++ codes "){")))

-- `grepl("^TEST.*runner", line)`.
unfoldable pub is_runner_line : Text → Bool
is_runner_line (a ∷ b ∷ c ∷ d ∷ rest) =
    str_eq (a ∷ b ∷ c ∷ d ∷ []) (codes "TEST") && has_substring rest (codes "runner")
is_runner_line _ = false

-- The name in the first such line of the file; without one the subscript `[[1]]` is an error.
unfoldable pub harness_name_of : List Text → Option Text
unfolding runner_harness_name
harness_name_of [] = none
harness_name_of (l ∷ ls) =
    if is_runner_line l then some (runner_harness_name l) else harness_name_of ls
