-- ===== src/Tests/Workflow.antt =====
-- The results on the workflow and on the assertions at concrete input.
use rcpp_deep_state.Base.{◌≡◌, ◌↔◌, refl, true, false, none, ◌++◌, codes, has_substring}
use rcpp_deep_state.Frontend.Types.{Text}
use rcpp_deep_state.Frontend.TestNames.{read_lines}
use rcpp_deep_state.Frontend.Ranges.Asserts.{missing_asserts, missing_asserts_iff}
use rcpp_deep_state.Frontend.Workflow.{Params, workflow_code, workflow_file, squeeze}
use rcpp_deep_state.Frontend.Workflow.Laws.{
  event_lines, job_lines, with_lines, read_lines-workflow_code,
}

-- The defaults of ci_setup.
abbrev defaults : Params
defaults = record {
  fail_ci_if_error = false;
  location = codes "/";
  seed = codes "-1";
  time_limit = codes "2";
  max_inputs = codes "3";
  comment = false;
  verbose = true;
}

read_lines-workflow_code_example :
    read_lines (workflow_code (codes "push") defaults)
    ≡ event_lines (codes "push") ++ job_lines ++ with_lines defaults
read_lines-workflow_code_example =
    read_lines-workflow_code (codes "push") defaults refl refl refl refl

default_file :
    workflow_file (codes "./") (codes "RcppDeepState.yaml")
    ≡ codes "./.github/workflows/RcppDeepState.yaml"
unfolding workflow_file squeeze
default_file = refl

abbrev checked : Text
checked = codes "  try{\n    f(n);\n    ASSERT_GT(n, 0);\n"

missing_asserts_iff_example :
    (missing_asserts false (read_lines checked) ≡ none)
    ↔ (has_substring checked (codes "ASSERT_") ≡ false)
missing_asserts_iff_example = missing_asserts_iff checked
