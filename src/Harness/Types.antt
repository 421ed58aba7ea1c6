-- ===== src/Harness/Types.antt =====
-- The data of the driver (inst/include/DeepState.h), and its effects.
use rcpp_deep_state.Base.{
  ℕ, ◌≡◌, refl, ap, ◌∙◌, Bool, true, false, Option, List, [], ◌∷◌, ◌++◌, if◌then◌else◌,
}

-- `enum DeepState_TestRunResult`.
pub data TestRunResult : Type 0 where
  pass fail crash abandon : TestRunResult

-- How a call of `test_func` comes to an end: it returns, throws a C++ exception, calls
-- DeepState_Fail, DeepState_Abandon or DeepState_Pass, or a signal kills the process.
pub data Ending : Type 0 where
  returns throws fails abandons passes dies : Ending

-- A run of a test: its end, whether DeepState_SoftFail was called before, and how far the input has
-- been read.
pub record TestRun : Type 0 where
  pub ending : Ending
  pub soft_failed : Bool
  pub next_index : ℕ

-- `struct DeepState_TestInfo`; `prev` is the rest of the list that holds it. What the test does
-- depends on the input buffer and the index in it.
pub record TestInfo : Type 0 where
  pub test_func : List ℕ × ℕ → TestRun
  pub test_name : List ℕ
  pub file_name : List ℕ
  pub line_number : ℕ

-- The command-line options that the driver reads: FLAGS_x, and HAS_FLAG_x where it asks whether the
-- option was given.
pub record Flags : Type 0 where
  pub has_list_tests : Bool
  pub has_input_test_file : Bool
  pub input_test_file : List ℕ
  pub has_input_test_dir : Bool
  pub input_test_dir : List ℕ
  pub has_input_test_files_dir : Bool
  pub input_test_files_dir : List ℕ
  pub has_input_which_test : Bool
  pub input_which_test : List ℕ
  pub has_output_test_dir : Bool
  pub has_boring_only : Bool
  pub has_test_filter : Bool
  pub test_filter : List ℕ
  pub has_run_disabled : Bool
  pub fuzz : Bool
  pub fuzz_save_passing : Bool
  pub fork : Bool
  pub has_abort_on_fail : Bool
  pub abort_on_fail : Bool
  pub exit_on_fail : Bool

-- A file that can be opened: `st_size`, and the bytes that `fread` delivers.
pub record File : Type 0 where
  pub st_size : ℕ
  pub bytes : List ℕ

-- What the driver calls and does not implement: the file system, `fnmatch` (whether the name
-- matches), the environment, the list of tests in order, and the fuzzer.
pub record Host : Type 0 where
  pub flags : Flags
  pub options_are_initialized : Bool
  pub under_drfuzz : Bool
  pub open_file : List ℕ → Option File
  pub open_dir : List ℕ → Option (List (List ℕ))
  pub is_regular : List ℕ → Bool
  -- The byte that DeepState_MemScrub writes everywhere.
  pub scrub : ℕ
  pub fnmatch : List ℕ → List ℕ → Bool
  pub tests : List TestInfo
  pub fuzz : ℕ

-- What the driver does that is seen from outside, in order.
pub data Event : Type 0 where
  begin : List ℕ → Event
  begin_dr_fuzz : List ℕ → Event
  list_test : List ℕ → ℕ → Event
  list_counts : ℕ → ℕ → ℕ → Event
  save_passing save_failing save_crashing mark_crashed clean_up wait_child teardown : Event

-- The input buffer with its index, the index of swarm configurations, and the events so far.
pub record World : Type 0 where
  pub input : List ℕ
  pub input_index : ℕ
  pub swarm_configs_index : ℕ
  pub events : List Event

-- The buffer and the index, which a test reads.
abbrev pub position : World → List ℕ × ℕ
position w = (w.input, w.input_index)

-- How a piece of the driver ends: with a value, by a jump to the last `setjmp`, by `exit`, or by a
-- signal.
pub data Outcome (A : Type 0) : Type 0 where
  done : A → Outcome A
  jumped : Outcome A
  exited : ℕ → Outcome A
  killed : Outcome A

abbrev pub Action : Type 0 → Type 0
Action A = World → Outcome A × World

module _ {A : Type 0} where
  abbrev pub give : A → Action A
  give a w = (done a, w)

  abbrev pub end_with : Outcome A → Action A
  end_with o w = (o, w)

-- What follows a piece is run only where that gave a value.
abbrev pub and_then : {A B : Type 0} → Outcome A × World → (A → Action B) → Outcome B × World
and_then (done a, w) f = f a w
and_then (jumped, w) f = (jumped, w)
and_then (exited n, w) f = (exited n, w)
and_then (killed, w) f = (killed, w)

infixl 5 ◌>>=◌ ◌>>◌
abbrev pub ◌>>=◌ : {A B : Type 0} → Action A → (A → Action B) → Action B
◌>>=◌ m f w = and_then (m w) f

abbrev pub ◌>>◌ : {A B : Type 0} → Action A → Action B → Action B
m >> k = m >>= λ _. k

abbrev pub emit : Event → Action (Unit {0})
emit e w = (done tt, record w { events = w.events ++ (e ∷ []) })

-- `if (test) act;`
abbrev pub when : Bool → Action (Unit {0}) → Action (Unit {0})
when true act = act
when false act = give tt

-- A first part that gives a value hands it on with its world.
pub bind_of_done :
    {A B : Type 0} (m : Action A) (f : A → Action B) (w : World) {a : A} {w' : World}
    → m w ≡ (done a, w')
    → (m >>= f) w ≡ f a w'
bind_of_done m f w e = ap (λ r. and_then r f) e

and_then_killed :
    {A B : Type 0} (r : Outcome A × World) (f : A → Action B)
    → r.0 ≡ killed
    → (and_then r f).0 ≡ killed
and_then_killed (done a, w) f e = cc
and_then_killed (jumped, w) f e = cc
and_then_killed (exited n, w) f e = cc
and_then_killed (killed, w) f e = refl

-- One that is killed ends the whole.
pub bind_of_killed :
    {A B : Type 0} (m : Action A) (f : A → Action B) (w : World)
    → (m w).0 ≡ killed
    → ((m >>= f) w).0 ≡ killed
bind_of_killed m f w e = and_then_killed (m w) f e

-- A piece that gives the same value in every world.
abbrev pub Gives : {A : Type 0} → Action A → A → Type 0
Gives m a = (w : World) → (m w).0 ≡ done a

and_then-Gives :
    {A B : Type 0} (r : Outcome A × World) (f : A → Action B) {a : A}
    → r.0 ≡ done a
    → (and_then r f).0 ≡ (f a r.1).0
and_then-Gives (done a, w) f e = cc
and_then-Gives (jumped, w) f e = cc
and_then-Gives (exited n, w) f e = cc
and_then-Gives (killed, w) f e = cc

pub Gives-bind :
    {A B : Type 0} (m : Action A) (f : A → Action B) {a : A} {b : B}
    → Gives m a
    → Gives (f a) b
    → Gives (m >>= f) b
Gives-bind m f g k w = and_then-Gives (m w) f (g w) ∙ k (m w).1

-- What follows a first part is all that counts if that gives a value.
pub bind_of_Gives :
    {A B : Type 0} (m : Action A) (f : A → Action B) {a : A} (w : World)
    → Gives m a
    → ((m >>= f) w).0 ≡ (f a (m w).1).0
bind_of_Gives m f w g = and_then-Gives (m w) f (g w)

and_then_exited :
    {A B : Type 0} (r : Outcome A × World) (f : A → Action B) {n : ℕ}
    → r.0 ≡ exited n
    → (and_then r f).0 ≡ exited n
and_then_exited (done a, w) f e = cc
and_then_exited (jumped, w) f e = cc
and_then_exited (exited n, w) f e = cc
and_then_exited (killed, w) f e = cc

-- An exit of the first part is one of the whole.
pub bind_of_exited :
    {A B : Type 0} (m : Action A) (f : A → Action B) (w : World) {n : ℕ}
    → (m w).0 ≡ exited n
    → ((m >>= f) w).0 ≡ exited n
bind_of_exited m f w e = and_then_exited (m w) f e

pub Gives-if :
    {A : Type 0} (b : Bool) (m k : Action A) {x y : A}
    → Gives m x
    → Gives k y
    → Gives (if b then m else k) (if b then x else y)
Gives-if true m k g g' = g
Gives-if false m k g g' = g'
