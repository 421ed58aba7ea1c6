-- ===== src/Harness/Main/Listing.antt =====
-- What --list_tests prints.
use rcpp_deep_state.Base.{
  ℕ, suc, ◌+◌, ◌≡◌, ap, ◌∙◌, ap₂, Bool, true, false, not, ◌&&◌, List, [], ◌∷◌, ◌++◌, length,
  if◌then◌else◌, arith,
}
use rcpp_deep_state.Harness.Types.{TestInfo, Host, World, done, Event, list_test, list_counts}
use rcpp_deep_state.Harness.RunTest.Laws.{add_events}
use rcpp_deep_state.Harness.Main.{is_boring, is_disabled, list_loop, run_list_tests}

-- The number of tests whose name satisfies the test.
abbrev pub count_names : (List ℕ → Bool) → List TestInfo → ℕ
count_names p [] = 0
count_names p (test ∷ tests) =
    if p test.test_name then suc (count_names p tests) else count_names p tests

abbrev pub listing : List TestInfo → List Event → List Event
listing [] rest = rest
listing (test ∷ tests) rest = list_test test.test_name test.line_number ∷ listing tests rest

-- Disabled, and not boring.
abbrev pub is_only_disabled : List ℕ → Bool
is_only_disabled name = not (is_boring name) && is_disabled name

ap3 :
    {A : Type 0} (f : ℕ → ℕ → ℕ → A) {a a' b b' c c' : ℕ}
    → a ≡ a'
    → b ≡ b'
    → c ≡ c'
    → f a b c ≡ f a' b' c'
ap3 f {a' = a'} {b' = b'} {c = c} p q r = ap₂ (λ x y. f x y c) p q ∙ ap (λ z. f a' b' z) r

add_suc : (x : Bool) (n m : ℕ) → (if x then suc n else n) + m ≡ n + (if x then suc m else m)
add_suc true n m = omega arith
add_suc false n m = omega arith

add_suc_unless :
    (x y : Bool) (n m : ℕ)
    → (if x then n else if y then suc n else n) + m ≡ n + (if not x && y then suc m else m)
add_suc_unless true y n m = omega arith
add_suc_unless false true n m = omega arith
add_suc_unless false false n m = omega arith

list_loop_lem :
    (tests : List TestInfo) (b d t : ℕ) (w : World)
    → list_loop b d t tests w ≡ (
      done 0,
      add_events
          (listing tests (
            list_counts
              (b + count_names is_boring tests)
              (d + count_names is_only_disabled tests)
              (t + length tests)
            ∷ []))
          w,
    )
unfolding list_loop
list_loop_lem [] b d t w =
    ap3 (λ x y z. (done 0, record w { events = w.events ++ (list_counts x y z ∷ []) }))
      (omega arith) (omega arith) (omega arith)
list_loop_lem (test ∷ tests) b d t w =
    let name = test.test_name in
    let w1 = record w { events = w.events ++ (list_test name test.line_number ∷ []) } in
    list_loop_lem tests (if is_boring name then suc b else b)
      (if is_boring name then d else if is_disabled name then suc d else d) (suc t) w1
    ∙ ap3 (λ x y z. (done 0, add_events (listing tests (list_counts x y z ∷ [])) w1))
        (add_suc (is_boring name) b (count_names is_boring tests))
        (add_suc_unless (is_boring name) (is_disabled name) d (count_names is_only_disabled tests))
        (omega arith)

-- DeepState_RunListTests prints the tests in order with their lines, and then how many are
-- boring, how many are disabled without being boring, and how many there are; it returns 0.
pub run_list_tests_lem :
    (h : Host) (w : World)
    → run_list_tests h w ≡ (
      done 0,
      add_events
          (listing h.tests (
            list_counts
              (count_names is_boring h.tests)
              (count_names is_only_disabled h.tests)
              (length h.tests)
            ∷ []))
          w,
    )
unfolding run_list_tests
run_list_tests_lem h w =
    list_loop_lem h.tests 0 0 0 w
    ∙ ap3 (λ x y z. (done 0, add_events (listing h.tests (list_counts x y z ∷ [])) w)) (omega arith)
        (omega arith) (omega arith)
