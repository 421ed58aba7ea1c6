-- ===== src/Harness/Saved/Laws.antt =====
-- With forks, what a saved test case gives depends on its file alone, and the numbers of failures are
-- those of the cases.
use rcpp_deep_state.Base.{
  ℕ, ◌-◌, ◌≡◌, refl, ap, ◌∙◌, Bool, true, false, Option, none, some, List, [], ◌∷◌, ◌++◌, length,
  replicate, take, ◌==◌, if◌then◌else◌, arith,
}
use rcpp_deep_state.Harness.Types.{
  TestRunResult, pass, fail, crash, abandon, TestInfo, Flags, Host, File, World, Outcome, done,
  jumped, exited, killed, Action, give, ◌>>◌, begin, Gives, Gives-bind, bind_of_done, and_then,
}
use rcpp_deep_state.Harness.Files.{init_input_from_file, to_read, load, input_size, load_from}
use rcpp_deep_state.Harness.RunTest.{fork_and_run_test}
use rcpp_deep_state.Harness.RunTest.Laws.{
  judge, verdict, saved, add_events, fork_and_run_test_forked,
}
use rcpp_deep_state.Harness.Saved.{join, report, run_loaded, attempt, or_crash, run_saved_test_case}

-- The bytes that a test reads if its input comes from the file.
abbrev pub buffer : ℕ → File → List ℕ
buffer scrub file =
    let got = take (to_read file) file.bytes in got ++ replicate (input_size - length got) scrub

-- The verdict on one saved test case: a crash if the file cannot be loaded.
abbrev pub verdict_of : ℕ → TestInfo → Option File → TestRunResult
verdict_of scrub test none = crash
verdict_of scrub test (some file) =
    if length (take (to_read file) file.bytes) == to_read file
    then judge (test.test_func (buffer scrub file, 0)).ending
        (test.test_func (buffer scrub file, 0)).soft_failed
    else crash

abbrev pub case_verdict : Host → TestInfo → List ℕ → List ℕ → TestRunResult
case_verdict h test dir name = verdict_of h.scrub test (h.open_file (join dir name))

report-Gives : (f : Flags) (r : TestRunResult) → Gives (report f r) tt
unfolding report
report-Gives f pass w = refl
report-Gives f fail w = refl
report-Gives f crash w = ground arith
report-Gives f abandon w = refl

or_crash_of_done :
    (p : Outcome TestRunResult × World) {r : TestRunResult} → p.0 ≡ done r → (or_crash p).0 ≡ done r
or_crash_of_done (done r, w) e = e
or_crash_of_done (jumped, w) e = cc
or_crash_of_done (exited n, w) e = cc
or_crash_of_done (killed, w) e = cc

or_crash_of_test :
    (c : Bool) (w : World) (f : Action TestRunResult) {r : TestRunResult}
    → (f w).0 ≡ done r
    → (or_crash (and_then (if c then done tt else jumped, w) (λ _. f))).0
      ≡ done (if c then r else crash)
or_crash_of_test true w f e = or_crash_of_done (f w) e
or_crash_of_test false w f e = refl

module _ (h : Host) (test : TestInfo) (on : h.flags.fork ≡ true) where
  run_loaded_lem : (w : World) → (run_loaded h test w).0 ≡ done (verdict test w)
  unfolding run_loaded
  run_loaded_lem w =
      let w1 = record w { events = w.events ++ (begin test.test_name ∷ []) } in
      ap (λ p. p.0)
        (bind_of_done (fork_and_run_test h.flags test) (λ r. report h.flags r >> give r) w1
          (fork_and_run_test_forked h.flags test w1 on))
      ∙ Gives-bind (report h.flags (verdict test w)) (λ _. give (verdict test w))
          (report-Gives h.flags (verdict test w)) (λ v. refl)
          (add_events (saved h.flags test w1) w1)

  attempt_of :
      (o : Option File) (w : World)
      → (or_crash (and_then (load_from h.scrub o w) (λ _. run_loaded h test))).0
        ≡ done (verdict_of h.scrub test o)
  unfolding load_from load to_read
  attempt_of none w = refl
  attempt_of (some file) w =
      or_crash_of_test (length (take (to_read file) file.bytes) == to_read file)
        (load h.scrub file w) (run_loaded h test) (run_loaded_lem (load h.scrub file w))

  -- With forks, a run of a saved test case always gives a result, the verdict on its file:
  -- whatever ran before has no influence.
  pub run_saved_test_case_gives :
      (dir name : List ℕ) (w : World)
      → (run_saved_test_case h test dir name w).0 ≡ done (case_verdict h test dir name)
  unfolding run_saved_test_case attempt init_input_from_file
  run_saved_test_case_gives dir name w = attempt_of (h.open_file (join dir name)) w
