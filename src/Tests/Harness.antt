-- ===== src/Tests/Harness.antt =====
-- The driver on a small host: runs of one test, and the input files.
use rcpp_deep_state.Base.{◌≡◌, refl, true, false, some, [], ◌∷◌, get_elem?, codes, arith}
use rcpp_deep_state.Harness.Types.{fail, Flags, save_failing, World, done}
use rcpp_deep_state.Harness.Files.{to_read, init_input_from_file}
use rcpp_deep_state.Harness.Files.Input.{init_input_from_file_done}
use rcpp_deep_state.Harness.RunTest.{fork_and_run_test}
use rcpp_deep_state.Harness.RunTest.Laws.{add_events, fork_and_run_test_forked}
use rcpp_deep_state.Tests.Sample.{no_flags, sum_test, host, world}

fork_and_run_test_forked_example :
    fork_and_run_test no_flags sum_test world ≡ (done fail, add_events (save_failing ∷ []) world)
fork_and_run_test_forked_example = fork_and_run_test_forked no_flags sum_test world refl

abbrev unforked : Flags
unforked = record no_flags { fork = false }

abbrev aborting : Flags
aborting = record no_flags { fork = false; has_abort_on_fail = true }

init_input_from_file_done_example :
    (w' : World) × (init_input_from_file (host no_flags) (codes "corpus/a") world ≡ (done tt, w'))
    × (get_elem? w'.input 1 ≡ some 3)
    × (w'.input_index ≡ 0)
    × (w'.events ≡ [])
unfolding to_read
init_input_from_file_done_example =
    init_input_from_file_done (host no_flags) (codes "corpus/a") world
      (record { st_size = 2; bytes = 2 ∷ 3 ∷ [] }) 1 refl (omega arith) (omega arith)
