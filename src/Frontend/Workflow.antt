-- ===== src/Frontend/Workflow.antt =====
-- The workflow for GitHub that ci_setup writes (R/ci_setup.R).
pub mod Laws
use rcpp_deep_state.Base.{
  ℕ, ◌==◌, ◌&&◌, Bool, true, false, List, [], ◌∷◌, ◌++◌, codes, is_in, if◌then◌else◌,
}
use rcpp_deep_state.Frontend.Types.{Text}
use rcpp_deep_state.Frontend.Harness.{◌/◌}

-- `gsub("[/]+", "/", path)`.
unfoldable pub squeeze : Text → Text
squeeze [] = []
squeeze (c ∷ []) = c ∷ []
squeeze (c ∷ d ∷ s) =
    let rest = squeeze (d ∷ s) in if c == b'/' && d == b'/' then rest else c ∷ rest

unfoldable pub workflow_file : Text → Text → Text
workflow_file repository workflow_file_name =
    squeeze (repository / codes ".github/workflows") / workflow_file_name

-- The arguments that become parameters of the step.
pub record Params : Type 0 where
  pub fail_ci_if_error : Bool
  pub location : Text
  pub seed : Text
  pub time_limit : Text
  pub max_inputs : Text
  pub comment : Bool
  pub verbose : Bool

-- `tolower` of a logical.
abbrev pub tolower : Bool → Text
tolower true = codes "true"
tolower false = codes "false"

-- `indent(5)` comes before it.
abbrev pub get_param_yaml : Text → Text → Text
get_param_yaml param_name param = codes "          " ++ (param_name ++ (codes ": " ++ param))

-- The arguments of the `paste` of `params`, which puts line ends between them.
abbrev pub param_lines : Params → List Text
param_lines p =
    get_param_yaml (codes "fail_ci_if_error") (tolower p.fail_ci_if_error)
    ∷ get_param_yaml (codes "location") p.location
    ∷ get_param_yaml (codes "seed") p.seed
    ∷ get_param_yaml (codes "max_seconds_per_function") p.time_limit
    ∷ get_param_yaml (codes "max_inputs") p.max_inputs
    ∷ get_param_yaml (codes "comment") (tolower p.comment)
    ∷ get_param_yaml (codes "verbose") (tolower p.verbose)
    ∷ []

unfoldable pub events : Text → Text
events event =
    if is_in event (codes "push" ∷ codes "pull_request" ∷ [])
    then codes "on:\n  " ++ (event ++ codes ":\n    branches:\n      - '*'\n")
    else codes "on:\n  # Add your events here\n"

abbrev pub env : Text
env = codes "    env:\n      GITHUB_PAT: ${{ secrets.GITHUB_TOKEN }}\n"

abbrev pub checkout_step : Text
checkout_step = codes "      - uses: actions/checkout@v2\n\n"

-- `workflow_code` up to the parameters, without its last line end.
unfoldable pub before_params : Text → Text
before_params event =
    events event
    ++ (codes
          "\nname: 'RcppDeepState analysis'\njobs:\n  RcppDeepState:\n    runs-on: ubuntu-latest\n\n"
        ++ (env
            ++ (codes "\n    steps: \n"
                ++ (checkout_step
                    ++ codes
                        "      - uses: FabrizioSandri/RcppDeepState-action@main\n        with:"))))

abbrev pub lines_after : List Text → Text
lines_after [] = codes "\n"
lines_after (l ∷ ls) = b'\n' ∷ (l ++ lines_after ls)

-- What is in the file; `write` ends the last line.
unfoldable pub workflow_code : Text → Params → Text
workflow_code event p = before_params event ++ lines_after (param_lines p)
