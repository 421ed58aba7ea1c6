-- ===== src/Frontend/Fuzz/Run.antt =====
-- The first run of deepstate_harness_compile_run on a package.
use rcpp_deep_state.Base.{
  ℤ, ◌≡◌, ◌≢◌, refl, ap, ap₂, sym, ◌∙◌, subst, true, ◌&&◌, none, some, List, [], ◌∷◌, map, All,
  str_eq, str_eq_refl, is_in, if◌then◌else◌, if_of_true, if_of_false, arith,
}
use rcpp_deep_state.Frontend.Types.{Text}
use rcpp_deep_state.Frontend.Types.Laws.{IsAllowed-unsupported}
use rcpp_deep_state.Frontend.Harness.{infun, Function, test_harness}
use rcpp_deep_state.Frontend.Folder.{Folder, add, object, links, make, is_empty, remove_objects}
use rcpp_deep_state.Frontend.Folder.Laws.{is_in-add-same, is_in-add}
use rcpp_deep_state.Frontend.Folder.Ready.{compile_ready}
use rcpp_deep_state.Frontend.Package.{
  Tree, put, clean, clean_folder, no_counts, harnesses, stopped, pkg_create,
}
use rcpp_deep_state.Frontend.Package.Loop.{testable_harnesses, AreDistinct, put-other}
use rcpp_deep_state.Frontend.Package.Laws.{pkg_create_lem}
use rcpp_deep_state.Frontend.Fuzz.{
  is_positive, run_executable, execution, log_text, run_harness, after_compile, fuzz_fun, keep_ran,
  fuzz_all, is_nonempty, is_created, compile_run,
}
use rcpp_deep_state.Frontend.Fuzz.Fresh.{
  IsFresh, AreAllowed, create_all-IsFresh, All-is_in, name_of, no_files,
}

-- No folder is listed twice.
abbrev pub AreDistinctNames : List Text → Type 0
AreDistinctNames [] = Unit
AreDistinctNames (n ∷ ns) = All (λ k. n ≢ k) ns × AreDistinctNames ns

execution_lem :
    (n : Text) (d : Folder)
    → is_in (object n infun) d ≡ true
    → is_in (test_harness n infun) d ≡ true
    → execution n infun d ≡ some n
execution_lem n d p q = rw (p, q) refl

module _ (p : Text) (seed time : ℤ) (positive : is_positive time ≡ true) where
  fuzz_fun-links :
      (n : Text) (d : Folder)
      → IsFresh n d
      → (fuzz_fun links p n seed time infun d).0 ≡ some (run_executable p n seed time infun, some n)
  unfolding fuzz_fun
  fuzz_fun-links n d (ready, absent) =
      let made : Folder = make links n infun (remove_objects d) in
      ap (λ o. (after_compile p n seed time infun d o).0)
        (if_of_false (is_in (object n infun) d) _ _ absent ∙ compile_ready links n infun d ready)
      ∙ (ap (λ r. r.0)
            (if_of_true (is_positive time) (run_harness p n seed time infun made) (none, made)
              positive)
          ∙ ap (λ e. some (run_executable p n seed time infun, e))
              (execution_lem n (add (log_text n infun) made)
                (is_in-add (object n infun) (log_text n infun) made (
                  is_in-add (object n infun) (test_harness n infun) _
                    (is_in-add-same (object n infun) (remove_objects d))))
                (is_in-add (test_harness n infun) (log_text n infun) made
                  (is_in-add-same (test_harness n infun) _))))

  abbrev AreFresh : Tree → List Text → Type 0
  AreFresh t = All (λ n. IsFresh n (t n))

  put-AreFresh :
      (n : Text) (d : Folder) (t : Tree) (ns : List Text)
      → All (λ k. n ≢ k) ns
      → AreFresh t ns
      → AreFresh (put n d t) ns
  put-AreFresh n d t [] h f = tt
  put-AreFresh n d t (k ∷ ns) h f =
      (subst (IsFresh k) (sym (put-other n k d t h.0)) f.0, put-AreFresh n d t ns h.1 f.1)

  fuzz_all-links :
      (ns : List Text) (t : Tree)
      → AreDistinctNames ns
      → AreFresh t ns
      → fuzz_all links p seed time ns t ≡ some ns
  unfolding fuzz_all
  fuzz_all-links [] t h f = refl
  fuzz_all-links (n ∷ ns) t h f =
      let after : Tree = put n (fuzz_fun links p n seed time infun (t n)).1 t in
      ap₂ (keep_ran n) (fuzz_fun-links n (t n) f.0)
        (fuzz_all-links ns after h.1 (put-AreFresh n _ t ns h.0 f.1))
      ∙ ap (λ (ks : List Text). some ks) (if_of_true (str_eq n n) (n ∷ ns) ns (str_eq_refl n))

clean-no_files : (fs : List Function) → All (λ f. clean no_files f.fun_name ≡ []) fs
unfolding clean clean_folder
clean-no_files [] = tt
clean-no_files (f ∷ fs) = (refl, clean-no_files fs)

testable_nonempty :
    (f : Function) (fs : List Function)
    → AreAllowed f
    → is_created (
        if is_empty (testable_harnesses no_files (f ∷ fs))
        then stopped
        else harnesses (testable_harnesses no_files (f ∷ fs)))
      ≡ true
unfolding testable_harnesses
testable_nonempty f fs h = ground (arith, IsAllowed-unsupported f.arguments h)

names-IsFresh :
    (t : Tree) (fs : List Function) (ns : List Text)
    → All (λ f. IsFresh f.fun_name (t f.fun_name)) fs
    → All (λ n. is_in n (map name_of fs) ≡ true) ns
    → All (λ n. IsFresh n (t n)) ns
names-IsFresh t fs [] h i = tt
names-IsFresh t fs (n ∷ ns) h i =
    (All-is_in (λ k. IsFresh k (t k)) fs n h i.0, names-IsFresh t fs ns h i.1)

-- What Sys.glob lists after deepstate_pkg_create: folders of the functions, none twice.
abbrev pub IsListing : List Function → List Text → Type 0
IsListing fs names =
    (is_nonempty names ≡ true)
    × AreDistinctNames names
    × All (λ n. is_in n (map name_of fs) ≡ true) names

-- The first deepstate_harness_compile_run on a package, with a positive time, functions of
-- different names whose datatypes are all allowed, and `make` linking each harness, does not stop
-- and returns the names of all folders that Sys.glob lists, which are at least one, of the
-- functions, and none twice.
pub compile_run-links :
    (packagename : Text) (time seed : ℤ) (f : Function) (fs : List Function)
    (glob : Tree → List Text)
    → is_positive time ≡ true
    → AreDistinct (f ∷ fs)
    → All AreAllowed (f ∷ fs)
    → IsListing (f ∷ fs) (glob (pkg_create (f ∷ fs) no_files).1)
    → compile_run links packagename time seed (f ∷ fs) glob no_files
      ≡ some (glob (pkg_create (f ∷ fs) no_files).1)
unfolding compile_run pkg_create
compile_run-links packagename time seed f fs glob positive distinct allowed listing =
    let after : Tree = (pkg_create (f ∷ fs) no_files).1 in
    let made : is_created (pkg_create (f ∷ fs) no_files).0 ≡ true =
      ap is_created (pkg_create_lem (f ∷ fs) no_files distinct)
      ∙ testable_nonempty f fs allowed.0 in
    let fresh =
      names-IsFresh after (f ∷ fs) (glob after)
        (create_all-IsFresh (f ∷ fs) no_counts (clean no_files) distinct allowed
          (clean-no_files (f ∷ fs)))
        listing.2 in
    if_of_true
      (is_positive time
        && (is_created (pkg_create (f ∷ fs) no_files).0 && is_nonempty (glob after)))
      (fuzz_all links packagename seed time (glob after) after) none
      (ap₂ (λ a b. a && b) positive (ap₂ (λ a b. a && b) made listing.0))
    ∙ fuzz_all-links packagename seed time positive (glob after) after listing.1 fresh
