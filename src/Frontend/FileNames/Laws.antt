-- ===== src/Frontend/FileNames/Laws.antt =====
-- The listed paths are not those of the files.
use mathlib.Core.List.{append_assoc}
use rcpp_deep_state.Base.{
  ℕ, zero, suc, ◌-◌, ◌<◌, ◌≤◌, ◌≡◌, ◌≢◌, ◌↔◌, refl, ap, sym, ◌∙◌, true, false, inl, inr, List, [],
  ◌∷◌, ◌++◌, codes, length, length-append, ends_ne, has_substring, gsub, gsub_from, gsub_absent,
  gsub-append, Bool-cases, arith,
}
use rcpp_deep_state.Frontend.Types.{Text}
use rcpp_deep_state.Frontend.Harness.{infun, filename, ◌/◌}
use rcpp_deep_state.Frontend.Folder.{output_dir}
use rcpp_deep_state.Frontend.FileNames.{
  listed_harness, listed_makefile, listed_log, listed_output, harness_file, makefile_file, log_file,
  output_directory,
}

length-gsub_from : (p : Text) (k : ℕ) (s : Text) → length (gsub_from p k s) ≤ length s
unfolding gsub_from
length-gsub_from p k [] = omega arith
length-gsub_from p (suc k) (c ∷ s) = grind (arith, length-gsub_from p k s)
length-gsub_from p zero (c ∷ s) =
    ground (arith, length-gsub_from p (length p - 1) s, length-gsub_from p 0 s)

shorter :
    (d : ℕ) (p s : Text)
    → has_substring s (d ∷ p) ≡ true
    → length (gsub_from (d ∷ p) 0 s) < length s
unfolding gsub_from
shorter d p [] h = cc
shorter d p (c ∷ s) h =
    ground (arith, length-gsub_from (d ∷ p) (length (d ∷ p) - 1) s, shorter d p s)

length-gsub : (p s : Text) → length (gsub p s) ≤ length s
unfolding gsub
length-gsub p s = length-gsub_from p 0 s

-- Only a text without the pattern stays as it is.
gsub_iff : (d : ℕ) (p s : Text) → (gsub (d ∷ p) s ≡ s) ↔ (has_substring s (d ∷ p) ≡ false)
unfolding gsub
gsub_iff d p s = (
  λ e. elim (Bool-cases (has_substring s (d ∷ p))) [
    | inl found ↦
        let less = shorter d p s found in
        let same : length (gsub_from (d ∷ p) 0 s) ≡ length s = ap length e in absurd (omega arith)
    | inr absent ↦ absent
  ],
  λ absent. gsub_absent (d ∷ p) s absent,
)

differ : {A : Type 0} (xs ys : List A) → length xs < length ys → xs ≢ ys
differ xs ys less e = let same : length xs ≡ length ys = ap length e in omega arith

harness_differs : (test_path f : Text) → listed_harness test_path f ≢ harness_file test_path f
unfolding listed_harness
harness_differs test_path f =
    let listed : Text = test_path / (f ++ codes "_DeepState_TestHarness.cpp") in
    let name : Text = f ++ codes "_DeepState_TestHarness" ++ [] in
    differ (gsub (codes "rcpp_") listed) (harness_file test_path f) (
      grind (
        arith,
        length-gsub (codes "rcpp_") listed,
        length-append test_path (codes "/" ++ (f ++ codes "_DeepState_TestHarness.cpp")),
        length-append f (codes "_DeepState_TestHarness.cpp"),
        length-append test_path (b'/' ∷ (f / filename f infun)),
        length-append f (b'/' ∷ filename f infun),
        length-append name (codes ".cpp"),
        length-append (f ++ codes "_DeepState_TestHarness") [],
        length-append f (codes "_DeepState_TestHarness"),
      ))

output_differs : (test_path f : Text) → listed_output test_path f ≢ output_directory test_path f
unfolding listed_output
output_differs test_path f =
    let listed : Text = test_path / (f ++ codes "_output") in
    differ (gsub (codes "rcpp_") listed) (output_directory test_path f) (
      grind (
        arith,
        length-gsub (codes "rcpp_") listed,
        length-append test_path (b'/' ∷ (f ++ codes "_output")),
        length-append f (codes "_output"),
        length-append test_path (b'/' ∷ (f / output_dir f infun)),
        length-append f (b'/' ∷ output_dir f infun),
        length-append (f ++ codes "_output") [],
      ))

makefile_differs : (test_path f : Text) → listed_makefile test_path f ≢ makefile_file test_path f
unfolding listed_makefile gsub gsub_from
makefile_differs test_path f e =
    let u : Text = test_path / f in
    let listed : listed_makefile test_path f ≡ gsub (codes "rcpp_") u ++ codes ".Makefile" =
      ap (gsub (codes "rcpp_")) (sym (append_assoc test_path (b'/' ∷ f) (codes ".Makefile")))
      ∙ gsub-append (codes "rcpp_") u (codes "Makefile") b'.' refl in
    ends_ne 8 (gsub (codes "rcpp_") u) (codes ".Makefile") u (codes "/Makefile")
      (λ q. let dot_is_slash : ◌≡◌ {A = ℕ} b'.' b'/' = q in omega arith)
      (sym listed ∙ (e ∙ sym (append_assoc test_path (b'/' ∷ f) (codes "/Makefile"))))

-- For every folder and function the harness, the makefile and the output directory that
-- R/files_names.R lists are not the paths that the package writes, and the log is the one that it
-- uses exactly if its path has no `rcpp_`.
pub listed_differ :
    (test_path f : Text)
    → (listed_harness test_path f ≢ harness_file test_path f)
      × (listed_makefile test_path f ≢ makefile_file test_path f)
      × (listed_output test_path f ≢ output_directory test_path f)
      × ((listed_log test_path f ≡ log_file test_path f)
          ↔ (has_substring (log_file test_path f) (codes "rcpp_") ≡ false))
unfolding listed_log
listed_differ test_path f = (
  harness_differs test_path f,
  makefile_differs test_path f,
  output_differs test_path f,
  gsub_iff b'r' (codes "cpp_") (log_file test_path f),
)
