-- ===== src/Frontend/Fuzz/Laws.antt =====
-- What deepstate_fuzz_fun gives the driver.
use mathlib.Core.Option.{some-injective}
use rcpp_deep_state.Base.{
  zero, suc, ℤ, pos, negsuc, ◌≡◌, refl, ap, subst, Bool, true, false, Option, none, some,
  if◌then◌else◌,
}
use rcpp_deep_state.Frontend.Types.{Text}
use rcpp_deep_state.Frontend.Harness.{Sep}
use rcpp_deep_state.Frontend.Folder.{Folder, Make}
use rcpp_deep_state.Frontend.Fuzz.{
  is_minus_one, is_positive, Command, run_executable, compiled, run_harness, after_compile,
  fuzz_fun,
}

-- The options of a run of a positive time.
abbrev pub IsTimed : ℤ → ℤ → Command → Type 0
IsTimed seed time c =
    (is_positive time ≡ true)
    × (c.timeout ≡ some time)
    × (c.seed ≡ (if is_minus_one seed then none else some seed))

run_executable-IsTimed :
    (p n : Text) (seed time : ℤ) (sep : Sep)
    → is_positive time ≡ true
    → IsTimed seed time (run_executable p n seed time sep)
run_executable-IsTimed p n (negsuc zero) (pos t) sep h = (h, refl, refl)
run_executable-IsTimed p n (negsuc (suc s)) (pos t) sep h = (h, refl, refl)
run_executable-IsTimed p n (pos s) (pos t) sep h = (h, refl, refl)
run_executable-IsTimed p n seed (negsuc t) sep h = cc

ran-IsTimed :
    (b : Bool) (p n : Text) (seed time : ℤ) (sep : Sep) (d : Folder) (c : Command) (r : Option Text)
    → is_positive time ≡ b
    → (if b then run_harness p n seed time sep d else (none, d)).0 ≡ some (c, r)
    → IsTimed seed time c
ran-IsTimed true p n seed time sep d c r h ran =
    let same : run_executable p n seed time sep ≡ c = ap (λ p. p.0) (some-injective _ _ ran) in
    subst (λ c. IsTimed seed time c) same (run_executable-IsTimed p n seed time sep h)
ran-IsTimed false p n seed time sep d c r h ran = cc

compiled-IsTimed :
    (o : Option Folder) (p n : Text) (seed time : ℤ) (sep : Sep) (d : Folder) (c : Command)
    (r : Option Text)
    → (after_compile p n seed time sep d o).0 ≡ some (c, r)
    → IsTimed seed time c
compiled-IsTimed none p n seed time sep d c r ran = cc
compiled-IsTimed (some e) p n seed time sep d c r ran =
    ran-IsTimed (is_positive time) p n seed time sep e c r refl ran

-- Whenever deepstate_fuzz_fun runs a harness, the time limit is positive and given as --timeout,
-- and --seed is given exactly if the seed is not -1.
pub fuzz_fun-IsTimed :
    (m : Make) (packagename fun_name : Text) (seed time : ℤ) (sep : Sep) (d : Folder) (c : Command)
    (r : Option Text)
    → (fuzz_fun m packagename fun_name seed time sep d).0 ≡ some (c, r)
    → IsTimed seed time c
unfolding fuzz_fun
fuzz_fun-IsTimed m packagename fun_name seed time sep d c r ran =
    compiled-IsTimed (compiled m fun_name sep d) packagename fun_name seed time sep d c r ran
