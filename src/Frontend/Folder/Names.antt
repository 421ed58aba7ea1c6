-- ===== src/Frontend/Folder/Names.antt =====
-- The names of the files of a folder differ.
use mathlib.Core.List.{reverse, append_cancel_right, append-nil}
use rcpp_deep_state.Base.{ℕ, ◌≡◌, ◌≢◌, sym, ◌∙◌, [], ◌++◌, codes, ends_ne, nth, arith}
use rcpp_deep_state.Frontend.Types.{Text}
use rcpp_deep_state.Frontend.Harness.{Sep, infun, generation, checks, filename, test_harness}
use rcpp_deep_state.Frontend.Folder.{output_dir, makefile_name}

abbrev pub makefile : Text
makefile = codes "Makefile"

pub filename_ne : (n : Text) (sep : Sep) → filename n sep ≢ makefile
filename_ne n sep =
    ends_ne 0 (test_harness n sep) (codes ".cpp") [] makefile
      (λ (q : ◌≡◌ {A = ℕ} 112 101). omega arith)

pub checks_output_ne : (n : Text) → makefile ≢ output_dir n checks
checks_output_ne n =
    ends_ne 0 [] makefile (n ++ codes "_output") (codes "_checks")
      (λ (q : ◌≡◌ {A = ℕ} 101 115). omega arith)

pub inputs_ne : makefile ≢ codes "inputs"
inputs_ne = ends_ne 0 [] makefile [] (codes "inputs") (λ (q : ◌≡◌ {A = ℕ} 101 115). omega arith)

pub generation_ne : makefile_name generation ≢ makefile
generation_ne =
    ends_ne 8 [] (makefile_name generation) [] makefile (λ (q : ◌≡◌ {A = ℕ} 46 0). omega arith)

pub checks_ne : makefile_name checks ≢ makefile
checks_ne = ends_ne 8 [] (makefile_name checks) [] makefile (λ (q : ◌≡◌ {A = ℕ} 46 0). omega arith)

module _ (n : Text) where
  pub checks_filename_ne :
      (v t : Text) → nth 0 (reverse t ++ reverse v) ≢ 112 → filename n checks ≢ v ++ t
  checks_filename_ne v t h = ends_ne 0 (test_harness n checks) (codes ".cpp") v t (λ q. h (sym q))

  pub checks_filename_ne_generation : filename n checks ≢ filename n generation
  checks_filename_ne_generation e =
      let base : Text = n ++ codes "_DeepState_TestHarness" in
      ends_ne 0 base (codes "_checks") base (codes "_generation")
        (λ (q : ◌≡◌ {A = ℕ} 115 110). omega arith)
        (append_cancel_right (test_harness n checks) (test_harness n generation) (codes ".cpp") e)

  pub checks_filename_ne_output : filename n checks ≢ output_dir n infun
  checks_filename_ne_output e =
      checks_filename_ne n (codes "_output") (λ (q : ◌≡◌ {A = ℕ} 116 112). omega arith)
        (e ∙ append-nil (n ++ codes "_output"))
