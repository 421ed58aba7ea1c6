-- ===== src/Harness/Main/Laws.antt =====
-- What a run of the driver returns, with forks.
use rcpp_deep_state.Base.{
  ℕ, ◌+◌, ◌*◌, ◌≡◌, refl, ap, sym, ◌∙◌, subst, Bool, true, false, not, ◌&&◌, ◌||◌, List, [], ◌∷◌,
  ◌++◌, codes, has_substring, if◌then◌else◌, if_of_false, arith,
}
use rcpp_deep_state.Harness.Types.{
  TestRunResult, TestInfo, Host, World, position, Outcome, done, jumped, exited, killed, Event,
  Action, give, ◌>>=◌, ◌>>◌, and_then, emit, when, begin, wait_child, teardown,
}
use rcpp_deep_state.Harness.RunTest.{fork_and_run_test}
use rcpp_deep_state.Harness.RunTest.Laws.{judge, saved, add_events, fork_and_run_test_forked}
use rcpp_deep_state.Harness.Saved.{failed}
use rcpp_deep_state.Harness.Main.{
  is_boring, run_one, is_skipped, run_regular, run_test_of, run_tests, run_own, run,
}

-- A piece that gives the value where the input is `i`, and leaves that there.
abbrev pub GivesOn : {A : Type 0} → List ℕ × ℕ → Action A → A → Type 0
GivesOn i m a = (w : World) → position w ≡ i → ((m w).0 ≡ done a) × (position (m w).1 ≡ i)

injective-done : {A : Type 0} {a b : A} → done a ≡ done b → a ≡ b
injective-done e = cc

and_then_on :
    {A B : Type 0} (i : List ℕ × ℕ) (r : Outcome A × World) (f : A → Action B) {a : A} {b : B}
    → r.0 ≡ done a
    → position r.1 ≡ i
    → GivesOn i (f a) b
    → ((and_then r f).0 ≡ done b) × (position (and_then r f).1 ≡ i)
and_then_on i (done a, w) f {b = b} e k g =
    subst (λ x. ((f x w).0 ≡ done b) × (position (f x w).1 ≡ i)) (sym (injective-done e)) (g w k)
and_then_on i (jumped, w) f e k g = cc
and_then_on i (exited n, w) f e k g = cc
and_then_on i (killed, w) f e k g = cc

GivesOn-bind :
    {A B : Type 0} (i : List ℕ × ℕ) (m : Action A) (f : A → Action B) {a : A} {b : B}
    → GivesOn i m a
    → GivesOn i (f a) b
    → GivesOn i (m >>= f) b
GivesOn-bind i m f g k w e = and_then_on i (m w) f (g w e).0 (g w e).1 k

GivesOn-if :
    {A : Type 0} (i : List ℕ × ℕ) (b : Bool) (m k : Action A) {x y : A}
    → GivesOn i m x
    → GivesOn i k y
    → GivesOn i (if b then m else k) (if b then x else y)
GivesOn-if i true m k g g' = g
GivesOn-if i false m k g g' = g'

both :
    (i : List ℕ × ℕ) (m k : Action ℕ) {x y : ℕ}
    → GivesOn i m x
    → GivesOn i k y
    → GivesOn i (m >>= λ a. k >>= λ b. give (a + b)) (x + y)
both i m k {x = x} g g' =
    GivesOn-bind i m (λ a. k >>= λ b. give (a + b)) g
      (GivesOn-bind i k (λ b. give (x + b)) g' (λ w e. (refl, e)))

position-add_events : (es : List Event) (w : World) → position (add_events es w) ≡ position w
position-add_events [] w = refl
position-add_events (e ∷ es) w = position-add_events es (record w { events = w.events ++ (e ∷ []) })

when-GivesOn : (b : Bool) (e : Event) (i : List ℕ × ℕ) → GivesOn i (when b (emit e)) tt
when-GivesOn true e i w k = (refl, k)
when-GivesOn false e i w k = (refl, k)

-- What the test amounts to on the input.
abbrev pub verdict_on : TestInfo → List ℕ × ℕ → TestRunResult
verdict_on test i = judge (test.test_func i).ending (test.test_func i).soft_failed

-- A test is chosen by its name if there is no filter or its name matches it, and if disabled tests
-- are asked for or its name does not say that it is one.
abbrev pub is_chosen : Host → List ℕ → Bool
is_chosen h name =
    (not h.flags.has_test_filter || h.fnmatch h.flags.test_filter name)
    && (h.flags.has_run_disabled
        || (not (has_substring name (codes "Disabled"))
            && not (has_substring name (codes "DISABLED"))))

-- How often a test counts, by two options and its name.
abbrev pub times : (boring_only says_boring chosen : Bool) → ℕ
times false says_boring true = 1
times false says_boring false = 0
times true true true = 2
times true true false = 1
times true false chosen = 0

abbrev pub times_run : Host → List ℕ → ℕ
times_run h name =
    times h.flags.has_boring_only
      (has_substring name (codes "Boring") || has_substring name (codes "BORING"))
      (is_chosen h name)

is_skipped-is_chosen : (h : Host) (name : List ℕ) → is_skipped h name ≡ not (is_chosen h name)
is_skipped-is_chosen h name = ground arith

times_lem :
    (b c s d : Bool) (v : ℕ)
    → s ≡ not d
    → (if b then (if c then v + (if s then 0 else v) else 0) else (if s then 0 else v))
      ≡ times b c d * v
times_lem true true true d v e = ground arith
times_lem true true false d v e = ground arith
times_lem true false s d v e = ground arith
times_lem false c true d v e = ground arith
times_lem false c false d v e = ground arith

abbrev pub total_failures : Host → List ℕ × ℕ → List TestInfo → ℕ
total_failures h i [] = 0
total_failures h i (test ∷ tests) =
    times_run h test.test_name * failed (verdict_on test i) + total_failures h i tests

module _ (h : Host) (i : List ℕ × ℕ) (on : h.flags.fork ≡ true)
    (plain : h.under_drfuzz ≡ false) where
  fork-GivesOn : (test : TestInfo) → GivesOn i (fork_and_run_test h.flags test) (verdict_on test i)
  fork-GivesOn test w e =
      let r = fork_and_run_test_forked h.flags test w on in
      (
        ap (λ p. p.0) r ∙ ap (λ x. done (verdict_on test x)) e,
        ap (λ p. position p.1) r ∙ (position-add_events (saved h.flags test w) w ∙ e),
      )

  run_one-GivesOn : (test : TestInfo) → GivesOn i (run_one h test) (failed (verdict_on test i))
  unfolding run_one
  run_one-GivesOn test =
      let last = λ (r : TestRunResult). give (failed r) in
      GivesOn-bind i (emit (begin test.test_name)) (λ _. fork_and_run_test h.flags test >>= last)
        (λ w e. (refl, e))
        (GivesOn-bind i (fork_and_run_test h.flags test) last (fork-GivesOn test)
          (λ w e. (refl, e)))

  run_regular-GivesOn :
      (test : TestInfo)
      → GivesOn i
          (run_regular h test)
          (if is_skipped h test.test_name then 0 else failed (verdict_on test i))
  unfolding run_regular
  run_regular-GivesOn test =
      GivesOn-if i (is_skipped h test.test_name) _ _ (λ w e. (refl, e))
        (subst (λ m. GivesOn i m (failed (verdict_on test i)))
          (sym (if_of_false h.under_drfuzz _ (run_one h test) plain)) (run_one-GivesOn test))

  run_test_of-GivesOn :
      (test : TestInfo)
      → GivesOn i (run_test_of h test) (times_run h test.test_name * failed (verdict_on test i))
  unfolding run_test_of
  run_test_of-GivesOn test =
      subst (λ n. GivesOn i (run_test_of h test) n)
        (times_lem h.flags.has_boring_only (is_boring test.test_name) (is_skipped h test.test_name)
          (is_chosen h test.test_name) (failed (verdict_on test i))
          (is_skipped-is_chosen h test.test_name))
        (GivesOn-if i h.flags.has_boring_only _ _
          (GivesOn-if i (is_boring test.test_name) _ _
            (both i (run_one h test) (run_regular h test) (run_one-GivesOn test)
              (run_regular-GivesOn test))
            (λ w e. (refl, e)))
          (run_regular-GivesOn test))

  run_tests-GivesOn :
      (tests : List TestInfo) → GivesOn i (run_tests h tests) (total_failures h i tests)
  unfolding run_tests
  run_tests-GivesOn [] = λ w e. (refl, e)
  run_tests-GivesOn (test ∷ tests) =
      both i (run_test_of h test) (run_tests h tests) (run_test_of-GivesOn test)
        (run_tests-GivesOn tests)

  run_own_gives : (w : World) → position w ≡ i → (run_own h w).0 ≡ done (total_failures h i h.tests)
  unfolding run_own
  run_own_gives w e =
      (GivesOn-bind i (run_tests h h.tests)
        (λ n. when h.under_drfuzz (emit wait_child) >> (emit teardown >> give n))
        (run_tests-GivesOn h.tests)
        (GivesOn-bind i (when h.under_drfuzz (emit wait_child))
          (λ _. emit teardown >> give (total_failures h i h.tests))
          (when-GivesOn h.under_drfuzz wait_child i) (λ v k. (refl, k)))
        w e).0

-- Without an option that asks for something else.
abbrev pub runs_own : Host → Bool
runs_own h =
    h.options_are_initialized
    && (not h.flags.has_list_tests
        && (not h.flags.has_input_test_file
            && (not h.flags.has_input_test_dir
                && (not h.flags.has_input_test_files_dir && not h.flags.fuzz))))

select_last :
    {A : Type 0} (b c d e f g : Bool) (x1 x2 x3 x4 x5 x6 x : A)
    → (b && (not c && (not d && (not e && (not f && not g))))) ≡ true
    → (if not b
        then x1
        else if c
        then x2
        else if d
        then x3
        else if e
        then x4
        else if f
        then x5
        else if g
        then x6
        else x)
      ≡ x
select_last true false false false false false x1 x2 x3 x4 x5 x6 x h = refl
select_last b c d e f g x1 x2 x3 x4 x5 x6 x h = ground arith

-- Where no option asks for something else, DeepState_Run, with forks and not under Dr. Fuzz,
-- returns the number of failures of the tests on the input that was there at the beginning: a
-- test that fails counts once if there is no filter or fnmatch matches its name, and
-- --run_disabled is given or its name has neither Disabled nor DISABLED in it; under
-- --boring_only a test with Boring or BORING in its name counts once more, and the others do not
-- count.
pub run_gives :
    (h : Host) (w : World)
    → h.flags.fork ≡ true
    → h.under_drfuzz ≡ false
    → runs_own h ≡ true
    → (run h w).0 ≡ done (total_failures h (position w) h.tests)
unfolding run
run_gives h w on plain own =
    ap (λ m. (m w).0)
      (select_last h.options_are_initialized h.flags.has_list_tests h.flags.has_input_test_file
        h.flags.has_input_test_dir h.flags.has_input_test_files_dir h.flags.fuzz _ _ _ _ _ _
        (run_own h) own)
    ∙ run_own_gives h (position w) on plain w refl
