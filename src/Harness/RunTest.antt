-- ===== src/Harness/RunTest.antt =====
-- One run of a test: DeepState_RunTest, DeepState_RunTestNoFork and DeepState_ForkAndRunTest of
-- inst/include/DeepState.h. What they log is left out.
pub mod Laws
use rcpp_deep_state.Base.{ℕ, zero, suc, Bool, true, false, not, ◌&&◌, ◌||◌, if◌then◌else◌}
use rcpp_deep_state.Harness.Types.{
  TestRunResult, pass, fail, crash, abandon, Ending, returns, throws, fails, abandons, passes, dies,
  TestRun, TestInfo, Flags, World, position, Outcome, done, exited, killed, Action, give, end_with,
  ◌>>=◌, ◌>>◌, emit, when, save_passing, save_failing, clean_up,
}

-- The number of a result in the enumeration, which is the exit code of a forked test.
abbrev pub status : TestRunResult → ℕ
status pass = 0
status fail = 1
status crash = 2
status abandon = 3

-- The conversion back; only the codes above occur.
abbrev pub of_status : ℕ → TestRunResult
of_status zero = pass
of_status (suc zero) = fail
of_status (suc (suc zero)) = crash
of_status (suc (suc (suc n))) = abandon

-- `DeepState_CatchFail()` after the jump: DeepState_Fail was called, also for an exception that was
-- caught, or DeepState_SoftFail before.
abbrev pub catch_fail : Ending → Bool → Bool
catch_fail throws soft = true
catch_fail fails soft = true
catch_fail _ soft = soft

-- `DeepState_CatchAbandoned()`.
abbrev pub catch_abandoned : Ending → Bool
catch_abandoned abandons = true
catch_abandoned _ = false

-- `HAS_FLAG_output_test_dir`, and the condition on the fuzzer under it.
abbrev pub saves_passing : Flags → Bool
saves_passing f = f.has_output_test_dir && (not f.fuzz || f.fuzz_save_passing)

-- The branches of DeepState_RunTest after the jump.
pub after_jump : Flags → Ending → Bool → Action (Unit {0})
after_jump f e soft =
    if catch_fail e soft
    then (when f.has_output_test_dir (emit save_failing) >> end_with (exited (status fail)))
    else if catch_abandoned e
    then end_with (exited (status abandon))
    else (when (saves_passing f) (emit save_passing) >> end_with (exited (status pass)))

-- The test function has come to its end: it returned, the process is gone, or it jumped.
pub finish : Flags → Ending → Bool → Action (Unit {0})
unfolding after_jump
finish f returns soft = end_with (exited (status pass))
finish f dies soft = end_with killed
finish f e soft = after_jump f e soft

-- In a child process, whose memory is lost, so that the index it reaches is not kept.
unfoldable pub run_test : Flags → TestInfo → Action (Unit {0})
unfolding finish
run_test f test w = let r = test.test_func (position w) in finish f r.ending r.soft_failed w

-- The branches of DeepState_RunTestNoFork after the jump; DeepState_HardCrash raises SIGABRT.
pub after_jump_no_fork : Flags → Ending → Bool → Action TestRunResult
after_jump_no_fork f e soft =
    if catch_fail e soft
    then (when f.has_output_test_dir (emit save_failing)
        >> when f.has_abort_on_fail (end_with killed)
        >> give fail)
    else if catch_abandoned e
    then give abandon
    else (when (saves_passing f) (emit save_passing) >> give pass)

pub finish_no_fork : Flags → Ending → Bool → Action TestRunResult
unfolding after_jump_no_fork
finish_no_fork f returns soft = give pass
finish_no_fork f dies soft = end_with killed
finish_no_fork f e soft = after_jump_no_fork f e soft

abbrev pub advance : TestRun → World → World
advance r w = record w { input_index = r.next_index }

unfoldable pub run_test_no_fork : Flags → TestInfo → Action TestRunResult
unfolding finish_no_fork
run_test_no_fork f test w =
    let r = test.test_func (position w) in finish_no_fork f r.ending r.soft_failed (advance r w)

-- `waitpid`: the exit code of the child, or a crash if a signal killed it. Of what the child does,
-- the files that it saves remain.
pub wait : Outcome (Unit {0}) × World → Outcome TestRunResult × World
wait (exited n, w) = (done (of_status n), w)
wait (_, w) = (done crash, w)

pub run_forked : Flags → TestInfo → Action TestRunResult
unfolding run_test wait
run_forked f test w = wait (run_test f test w)

-- The branch without a fork, which cleans up what the test left.
pub run_in_process : Flags → TestInfo → Action TestRunResult
unfolding run_test_no_fork
run_in_process f test = do r ← run_test_no_fork f test; emit clean_up; give r

unfoldable pub fork_and_run_test : Flags → TestInfo → Action TestRunResult
unfolding run_forked run_in_process
fork_and_run_test f test = if f.fork then run_forked f test else run_in_process f test
