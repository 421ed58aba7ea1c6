-- ===== src/Harness/RunTest/Laws.antt =====
-- The result of a test, and what it saves, with and without a fork.
use rcpp_deep_state.Base.{
  ◌≡◌, refl, ◌∙◌, ap, ◌≢◌, ◌⊎◌, Bool, true, false, not, ◌&&◌, ◌||◌, List, [], ◌∷◌, ◌++◌, arith,
  if_of_true, if_of_false, if◌then◌else◌,
}
use rcpp_deep_state.Harness.Types.{
  TestRunResult, pass, fail, crash, abandon, Ending, returns, throws, fails, abandons, passes, dies,
  position, TestInfo, Flags, World, done, killed, Event, save_passing, save_failing, clean_up,
  bind_of_done, emit, give, ◌>>◌, bind_of_killed,
}
use rcpp_deep_state.Harness.RunTest.{
  finish, finish_no_fork, wait, run_test_no_fork, run_forked, run_in_process, advance,
  fork_and_run_test,
}

-- What a test amounts to: an exception, a failed assertion and a soft failure count as failures, the
-- last also of a test that then passes or is abandoned; one that just returns passes.
abbrev pub judge : Ending → Bool → TestRunResult
judge returns soft = pass
judge throws soft = fail
judge fails soft = fail
judge abandons soft = if soft then fail else abandon
judge passes soft = if soft then fail else pass
judge dies soft = crash

abbrev pub verdict : TestInfo → World → TestRunResult
verdict t w = judge (t.test_func (position w)).ending (t.test_func (position w)).soft_failed

-- The files that it saves, if there is a directory for them: a failing test always, a passing one
-- unless a fuzzer runs that keeps failures only, and none for a test that just returns.
abbrev pub saves : Flags → Ending → Bool → List Event
saves f returns soft = []
saves f dies soft = []
saves f e soft = elim (judge e soft) [
  | fail ↦ if f.has_output_test_dir then save_failing ∷ [] else []
  | pass ↦
      if f.has_output_test_dir && (not f.fuzz || f.fuzz_save_passing) then save_passing ∷ [] else []
  | _ ↦ []
]

abbrev pub saved : Flags → TestInfo → World → List Event
saved f t w = saves f (t.test_func (position w)).ending (t.test_func (position w)).soft_failed

-- The world with more events.
abbrev pub add_events : List Event → World → World
add_events [] w = w
add_events (e ∷ es) w = add_events es (record w { events = w.events ++ (e ∷ []) })

-- After the jump the child exits with the verdict.
wait-finish :
    (f : Flags) (e : Ending) (soft : Bool) (w : World)
    → wait (finish f e soft w) ≡ (done (judge e soft), add_events (saves f e soft) w)
unfolding finish wait
wait-finish f returns soft w = refl
wait-finish f throws soft w = ground arith
wait-finish f fails soft w = ground arith
wait-finish f abandons soft w = ground arith
wait-finish f passes soft w = ground arith
wait-finish f dies soft w = refl

finish_no_fork_lem :
    (f : Flags) (e : Ending) (soft : Bool) (w : World)
    → f.has_abort_on_fail ≡ false
    → e ≢ dies
    → finish_no_fork f e soft w ≡ (done (judge e soft), add_events (saves f e soft) w)
unfolding finish_no_fork
finish_no_fork_lem f returns soft w a h = refl
finish_no_fork_lem f throws soft w a h = rw a (ground arith)
finish_no_fork_lem f fails soft w a h = rw a (ground arith)
finish_no_fork_lem f abandons true w a h = rw a (ground arith)
finish_no_fork_lem f abandons false w a h = refl
finish_no_fork_lem f passes true w a h = rw a (ground arith)
finish_no_fork_lem f passes false w a h = ground arith
finish_no_fork_lem f dies soft w a h = absurd (h refl)

finish_no_fork_killed :
    (f : Flags) (e : Ending) (soft : Bool) (w : World)
    → f.has_abort_on_fail ≡ true
    → (judge e soft ≡ fail) ⊎ (judge e soft ≡ crash)
    → (finish_no_fork f e soft w).0 ≡ killed
unfolding finish_no_fork
finish_no_fork_killed f returns soft w a h = ground arith
finish_no_fork_killed f throws soft w a h = rw a (ground arith)
finish_no_fork_killed f fails soft w a h = rw a (ground arith)
finish_no_fork_killed f abandons true w a h = rw a (ground arith)
finish_no_fork_killed f abandons false w a h = ground arith
finish_no_fork_killed f passes true w a h = rw a (ground arith)
finish_no_fork_killed f passes false w a h = ground arith
finish_no_fork_killed f dies soft w a h = refl

module _ (f : Flags) (t : TestInfo) (w : World) where
  -- With a fork the caller always goes on: it gets the verdict on the test, a crash included, and
  -- exactly the files that the verdict calls for are saved.
  pub fork_and_run_test_forked :
      f.fork ≡ true → fork_and_run_test f t w ≡ (done (verdict t w), add_events (saved f t w) w)
  unfolding fork_and_run_test
  fork_and_run_test_forked on =
      ap (λ m. m w) (if_of_true f.fork (run_forked f t) (run_in_process f t) on)
      ∙ wait-finish f (t.test_func (position w)).ending (t.test_func (position w)).soft_failed w

  -- Without a fork the caller gets the verdict and the same files are saved for a test that does
  -- not crash, if abort_on_fail is not given; the index stays where the test left it, and its
  -- memory is cleaned up.
  pub fork_and_run_test_in_process :
      f.fork ≡ false
      → f.has_abort_on_fail ≡ false
      → (t.test_func (position w)).ending ≢ dies
      → fork_and_run_test f t w ≡ (
        done (verdict t w),
        add_events
            (clean_up ∷ [])
            (add_events (saved f t w) (advance (t.test_func (position w)) w)),
      )
  unfolding fork_and_run_test
  fork_and_run_test_in_process off a h =
      ap (λ m. m w) (if_of_false f.fork (run_forked f t) (run_in_process f t) off)
      ∙ bind_of_done (run_test_no_fork f t) (λ r. emit clean_up >> give r) w
          (let r = t.test_func (position w) in
            finish_no_fork_lem f r.ending r.soft_failed (advance r w) a h)

  -- Without a fork, under abort_on_fail, a test that fails or crashes ends the whole process.
  pub fork_and_run_test_killed :
      f.fork ≡ false
      → f.has_abort_on_fail ≡ true
      → (verdict t w ≡ fail) ⊎ (verdict t w ≡ crash)
      → (fork_and_run_test f t w).0 ≡ killed
  unfolding fork_and_run_test
  fork_and_run_test_killed off a h =
      ap (λ m. (m w).0) (if_of_false f.fork (run_forked f t) (run_in_process f t) off)
      ∙ bind_of_killed (run_test_no_fork f t) (λ r. emit clean_up >> give r) w
          (let r = t.test_func (position w) in
            finish_no_fork_killed f r.ending r.soft_failed (advance r w) a h)
