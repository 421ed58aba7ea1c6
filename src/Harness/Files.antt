-- ===== src/Harness/Files.antt =====
-- Saved test cases as files: their names, and how one fills the input buffer
-- (DeepState_IsTestCaseFile and DeepState_InitInputFromFile of inst/include/DeepState.h).
pub mod Laws
pub mod Input
use rcpp_deep_state.Base.{
  ℕ, ◌-◌, Bool, true, false, not, Option, none, some, List, [], ◌∷◌, ◌++◌, length, replicate, take,
  codes, strchr, str_eq, ltb, ◌==◌, if◌then◌else◌,
}
use rcpp_deep_state.Harness.Types.{Host, File, World, Action, Outcome, done, jumped}

abbrev pub extensions : List (List ℕ)
extensions = codes ".pass" ∷ codes ".fail" ∷ codes ".crash" ∷ []

-- The loop over `extensions`.
pub is_extension : List ℕ → List (List ℕ) → Bool
is_extension suffix [] = false
is_extension suffix (e ∷ es) = if str_eq suffix e then true else is_extension suffix es

unfoldable pub is_test_case_file : List ℕ → Bool
unfolding is_extension
is_test_case_file name = elim (strchr name b'.') [
  | none ↦ false
  | some suffix ↦ is_extension suffix extensions
]

-- DeepState_InputSize.
abbrev pub input_size : ℕ
input_size = 8192

-- `to_read`: a file that is too large is cut.
unfoldable pub to_read : File → ℕ
to_read file = if ltb input_size file.st_size then input_size else file.st_size

-- The buffer is scrubbed, and then the bytes that were read stand at its beginning.
unfoldable pub load : ℕ → File → World → World
unfolding to_read
load scrub file w =
    let got = take (to_read file) file.bytes in
    record w {
      input = got ++ replicate (input_size - length got) scrub;
      input_index = 0;
      swarm_configs_index = 0;
    }

-- A file that cannot be opened, or delivers fewer bytes than it should, abandons the test; `fileno`
-- and `fstat` do not fail on an open file.
unfoldable pub load_from : ℕ → Option File → Action (Unit {0})
unfolding load to_read
load_from scrub none w = (jumped, w)
load_from scrub (some file) w = (
  if length (take (to_read file) file.bytes) == to_read file then done tt else jumped,
  load scrub file w,
)

unfoldable pub init_input_from_file : Host → List ℕ → Action (Unit {0})
init_input_from_file h path w = load_from h.scrub (h.open_file path) w
