-- ===== src/Frontend/Workflow/Laws.antt =====
-- The parameters in the lines of the workflow.
use rcpp_deep_state.Base.{
  ◌≡◌, refl, ap, ap₂, sym, subst, ◌∙◌, Bool, true, false, ◌==◌, List, [], ◌∷◌, ◌++◌, All, codes,
  str_eq, str_eq_lem, if◌then◌else◌, Bool-cases, inl, inr, contains, contains-append, or_false,
}
use rcpp_deep_state.Frontend.Types.{Text}
use rcpp_deep_state.Frontend.TestNames.{is_newline, split_by, read_lines}
use rcpp_deep_state.Frontend.TestNames.Split.{IsWhole, split_by-word, split_by-append, newline}
use rcpp_deep_state.Frontend.Workflow.{
  Params, tolower, get_param_yaml, param_lines, events, before_params, lines_after, workflow_code,
}

abbrev pub IsLine : Text → Type 0
IsLine s = contains s b'\n' ≡ false

IsLine-IsWhole : (s : Text) → IsLine s → IsWhole is_newline s
unfolding is_newline
IsLine-IsWhole [] h = tt
IsLine-IsWhole (c ∷ s) h =
    let (here, later) = or_false (c == b'\n') (contains s b'\n') h in (here, IsLine-IsWhole s later)

-- The lines after a line end.
abbrev rest_of : List Text → Text
rest_of [] = []
rest_of (l ∷ ls) = l ++ (b'\n' ∷ rest_of ls)

lines_after-rest_of : (ls : List Text) → lines_after ls ≡ b'\n' ∷ rest_of ls
lines_after-rest_of [] = refl
lines_after-rest_of (l ∷ ls) = ap (λ t. b'\n' ∷ (l ++ t)) (lines_after-rest_of ls)

split_by-rest_of : (ls : List Text) → All IsLine ls → split_by is_newline [] (rest_of ls) ≡ ls
unfolding split_by
split_by-rest_of [] h = refl
split_by-rest_of (l ∷ ls) h =
    split_by-word is_newline [] l (rest_of ls) b'\n' (IsLine-IsWhole l h.0) newline
    ∙ ap (λ ps. l ∷ ps) (split_by-rest_of ls h.1)

tolower-IsLine : (b : Bool) → IsLine (tolower b)
tolower-IsLine true = refl
tolower-IsLine false = refl

get_param_yaml-IsLine :
    (name param : Text) → IsLine name → IsLine param → IsLine (get_param_yaml name param)
get_param_yaml-IsLine name param h k =
    contains-append (codes "          ") (name ++ (codes ": " ++ param)) b'\n' refl (
      contains-append name (codes ": " ++ param) b'\n' h
        (contains-append (codes ": ") param b'\n' refl k))

abbrev on_branches : Text → List Text
on_branches event =
    codes "on:"
    ∷ (codes "  " ++ event ++ codes ":")
    ∷ codes "    branches:"
    ∷ codes "      - '*'"
    ∷ []

-- The lines on the event that triggers the workflow.
abbrev pub event_lines : Text → List Text
event_lines event =
    if str_eq event (codes "push")
    then on_branches (codes "push")
    else if str_eq event (codes "pull_request")
    then on_branches (codes "pull_request")
    else codes "on:" ∷ codes "  # Add your events here" ∷ []

-- The lines on the job, to the step of the action.
abbrev pub job_lines : List Text
job_lines =
    []
    ∷ codes "name: 'RcppDeepState analysis'"
    ∷ codes "jobs:"
    ∷ codes "  RcppDeepState:"
    ∷ codes "    runs-on: ubuntu-latest"
    ∷ []
    ∷ codes "    env:"
    ∷ codes "      GITHUB_PAT: ${{ secrets.GITHUB_TOKEN }}"
    ∷ []
    ∷ codes "    steps: "
    ∷ codes "      - uses: actions/checkout@v2"
    ∷ []
    ∷ codes "      - uses: FabrizioSandri/RcppDeepState-action@main"
    ∷ codes "        with:"
    ∷ []

abbrev of_flag : Bool → Text → Text → Text
of_flag true set unset = set
of_flag false set unset = unset

-- The lines of the parameters of the action.
abbrev pub with_lines : Params → List Text
with_lines p =
    of_flag p.fail_ci_if_error (codes "          fail_ci_if_error: true")
      (codes "          fail_ci_if_error: false")
    ∷ (codes "          location: " ++ p.location)
    ∷ (codes "          seed: " ++ p.seed)
    ∷ (codes "          max_seconds_per_function: " ++ p.time_limit)
    ∷ (codes "          max_inputs: " ++ p.max_inputs)
    ∷ of_flag p.comment (codes "          comment: true") (codes "          comment: false")
    ∷ of_flag p.verbose (codes "          verbose: true") (codes "          verbose: false")
    ∷ []

abbrev Opens : Text → Type 0
Opens event = read_lines (before_params event ++ codes "\n") ≡ event_lines event ++ job_lines

push-Opens : Opens (codes "push")
unfolding before_params events split_by is_newline
push-Opens = refl

pull_request-Opens : Opens (codes "pull_request")
unfolding before_params events split_by is_newline
pull_request-Opens = refl

other-Opens :
    (event : Text)
    → str_eq event (codes "push") ≡ false
    → str_eq event (codes "pull_request") ≡ false
    → Opens event
unfolding before_params events split_by is_newline
other-Opens event h k = rw (h, k) refl

all-Opens : (event : Text) → Opens event
all-Opens event = elim (Bool-cases (str_eq event (codes "push"))) [
  | inl h ↦ subst Opens (sym (str_eq_lem event (codes "push") h)) push-Opens
  | inr h ↦ elim (Bool-cases (str_eq event (codes "pull_request"))) [
    | inl k ↦ subst Opens (sym (str_eq_lem event (codes "pull_request") k)) pull_request-Opens
    | inr k ↦ other-Opens event h k
  ]
]

flag_lem :
    (name : Text) (b : Bool)
    → get_param_yaml name (tolower b)
      ≡ of_flag b (get_param_yaml name (codes "true")) (get_param_yaml name (codes "false"))
flag_lem name true = refl
flag_lem name false = refl

param_lines_lem : (p : Params) → param_lines p ≡ with_lines p
param_lines_lem p =
    rw
      (
        flag_lem (codes "fail_ci_if_error") p.fail_ci_if_error,
        flag_lem (codes "comment") p.comment,
        flag_lem (codes "verbose") p.verbose,
      )
      refl

-- The parameters are on lines of their own.
read_lines-params :
    (event : Text) (p : Params)
    → IsLine p.location
    → IsLine p.seed
    → IsLine p.time_limit
    → IsLine p.max_inputs
    → read_lines (workflow_code event p)
      ≡ read_lines (before_params event ++ codes "\n") ++ param_lines p
unfolding workflow_code
read_lines-params event p location seed time_limit max_inputs =
    ap (λ t. read_lines (before_params event ++ t)) (lines_after-rest_of (param_lines p))
    ∙ (split_by-append is_newline [] (before_params event) (rest_of (param_lines p)) b'\n' newline
        ∙ ap (λ ls. read_lines (before_params event ++ codes "\n") ++ ls)
            (split_by-rest_of (param_lines p) (
              get_param_yaml-IsLine (codes "fail_ci_if_error") (tolower p.fail_ci_if_error) refl
                  (tolower-IsLine p.fail_ci_if_error),
              (
                get_param_yaml-IsLine (codes "location") p.location refl location,
                (
                  get_param_yaml-IsLine (codes "seed") p.seed refl seed,
                  (
                    get_param_yaml-IsLine (codes "max_seconds_per_function") p.time_limit refl
                        time_limit,
                    (
                      get_param_yaml-IsLine (codes "max_inputs") p.max_inputs refl max_inputs,
                      (
                        get_param_yaml-IsLine (codes "comment") (tolower p.comment) refl
                            (tolower-IsLine p.comment),
                        (
                          get_param_yaml-IsLine (codes "verbose") (tolower p.verbose) refl
                              (tolower-IsLine p.verbose),
                          tt,
                        ),
                      ),
                    ),
                  ),
                ),
              ),
            )))

-- The workflow that ci_setup writes has, line by line, the event with its branches where it is
-- push or pull_request and a comment where not, the job up to the step of the action, and the
-- seven parameters with their values, if location, seed, time_limit and max_inputs have no line
-- end.
pub read_lines-workflow_code :
    (event : Text) (p : Params)
    → IsLine p.location
    → IsLine p.seed
    → IsLine p.time_limit
    → IsLine p.max_inputs
    → read_lines (workflow_code event p) ≡ event_lines event ++ job_lines ++ with_lines p
read_lines-workflow_code event p location seed time_limit max_inputs =
    read_lines-params event p location seed time_limit max_inputs
    ∙ ap₂ (λ a b. a ++ b) (all-Opens event) (param_lines_lem p)
