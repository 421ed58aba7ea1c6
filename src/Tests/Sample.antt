-- ===== src/Tests/Sample.antt =====
-- A small host for the driver: two tests, directories with saved test cases, and the flags.
use rcpp_deep_state.Base.{
  ℕ, suc, true, false, Option, none, some, List, [], ◌∷◌, codes, str_eq, ◌==◌, if◌then◌else◌,
}
use rcpp_deep_state.Harness.Types.{
  returns, fails, passes, dies, TestRun, TestInfo, Flags, File, Host, World,
}

abbrev pub no_flags : Flags
no_flags = record {
  has_list_tests = false;
  has_input_test_file = false;
  input_test_file = codes "bad";
  has_input_test_dir = false;
  input_test_dir = codes "out";
  has_input_test_files_dir = false;
  input_test_files_dir = codes "corpus";
  has_input_which_test = true;
  input_which_test = codes "Boring_sum";
  has_output_test_dir = true;
  has_boring_only = false;
  has_test_filter = false;
  test_filter = [];
  has_run_disabled = false;
  fuzz = false;
  fuzz_save_passing = false;
  fork = true;
  has_abort_on_fail = false;
  abort_on_fail = false;
  exit_on_fail = false;
}

-- The test fails if the first byte is 1, and kills the process if it is 2.
abbrev pub check_first : List ℕ × ℕ → TestRun
check_first ([], i) = record { ending = returns; soft_failed = false; next_index = i }
check_first (b ∷ bs, i) = record {
  ending = if b == 1 then fails else if b == 2 then dies else passes;
  soft_failed = false;
  next_index = suc i;
}

abbrev pub sum_test : TestInfo
sum_test = record {
  test_func = check_first;
  test_name = codes "Boring_sum";
  file_name = codes "src/h.cpp";
  line_number = 7;
}

abbrev pub other_test : TestInfo
other_test = record {
  test_func = λ bs. record { ending = passes; soft_failed = true; next_index = 4 };
  test_name = codes "other";
  file_name = codes "src/h.cpp";
  line_number = 9;
}

abbrev pub files : List ℕ → Option File
files name =
    if str_eq name (codes "bad")
    then some (record { st_size = 1; bytes = 1 ∷ [] })
    else if str_eq name (codes "corpus/a")
    then some (record { st_size = 2; bytes = 2 ∷ 3 ∷ [] })
    else if str_eq name (codes "out/h.cpp/Boring_sum/a.fail")
    then some (record { st_size = 1; bytes = 1 ∷ [] })
    else none

abbrev pub dirs : List ℕ → Option (List (List ℕ))
dirs name =
    if str_eq name (codes "out/h.cpp/Boring_sum")
    then some (codes "a.fail" ∷ codes "b" ∷ [])
    else if str_eq name (codes "corpus")
    then some (codes "a" ∷ codes ".." ∷ [])
    else none

abbrev pub host : Flags → Host
host f = record {
  flags = f;
  options_are_initialized = true;
  under_drfuzz = false;
  open_file = files;
  open_dir = dirs;
  is_regular = λ path. str_eq path (codes "corpus/a");
  scrub = 0;
  fnmatch = λ p s. true;
  tests = other_test ∷ sum_test ∷ [];
  fuzz = 0;
}

abbrev pub world : World
world = record { input = 1 ∷ 0 ∷ []; input_index = 1; swarm_configs_index = 0; events = [] }
