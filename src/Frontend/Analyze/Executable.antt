-- ===== src/Frontend/Analyze/Executable.antt =====
-- The executable that deepstate_analyze_file runs is the harness that was fuzzed.
use mathlib.Core.List.{append_assoc}
use rcpp_deep_state.Base.{
  ℕ, ◌≡◌, refl, ap, sym, ◌∙◌, true, false, [], ◌∷◌, ◌++◌, codes, starts_with, has_substring,
  gsub_by, gsub_by_from, or_false, arith,
}
use rcpp_deep_state.Frontend.Types.{Text}
use rcpp_deep_state.Frontend.Harness.{Sep, infun, generation, checks, suffix, test_harness}
use rcpp_deep_state.Frontend.Folder.{output_dir}
use rcpp_deep_state.Frontend.Analyze.{exec}

abbrev output : Text
output = codes "_output"

abbrev harness_name : Text
harness_name = codes "_DeepState_TestHarness"

-- A match that begins in a text lies in it, when `_output` comes next.
no_overlap :
    (s rest : Text) (c : ℕ)
    → starts_with (c ∷ s) output ≡ false
    → starts_with ((c ∷ s) ++ (output ++ rest)) output ≡ false
no_overlap [] rest c h = ground arith
no_overlap (d₁ ∷ []) rest c h = ground arith
no_overlap (d₁ ∷ d₂ ∷ []) rest c h = ground arith
no_overlap (d₁ ∷ d₂ ∷ d₃ ∷ []) rest c h = ground arith
no_overlap (d₁ ∷ d₂ ∷ d₃ ∷ d₄ ∷ []) rest c h = ground arith
no_overlap (d₁ ∷ d₂ ∷ d₃ ∷ d₄ ∷ d₅ ∷ []) rest c h = ground arith
no_overlap (d₁ ∷ d₂ ∷ d₃ ∷ d₄ ∷ d₅ ∷ d₆ ∷ s) rest c h = h

replaces :
    (n rest : Text)
    → has_substring n output ≡ false
    → gsub_by output harness_name (n ++ (output ++ rest))
      ≡ n ++ (harness_name ++ gsub_by output harness_name rest)
unfolding gsub_by gsub_by_from
replaces [] rest h = refl
replaces (c ∷ n) rest h =
    let (start, later) = or_false (starts_with (c ∷ n) output) (has_substring n output) h in
    ap
      (λ b. elim b [
        | true ↦ harness_name ++ gsub_by_from output harness_name 6 (n ++ (output ++ rest))
        | false ↦ c ∷ gsub_by_from output harness_name 0 (n ++ (output ++ rest))
      ])
      (no_overlap n rest c start)
    ∙ ap (λ s. c ∷ s) (replaces n rest later)

suffix-kept : (sep : Sep) → gsub_by output harness_name (suffix sep) ≡ suffix sep
unfolding gsub_by gsub_by_from
suffix-kept infun = refl
suffix-kept generation = refl
suffix-kept checks = refl

-- For a function whose name does not contain _output, deepstate_analyze_file runs, for each kind
-- of harness, the executable that deepstate_fuzz_fun ran.
pub exec_lem :
    (fun_name : Text) (sep : Sep)
    → has_substring fun_name (codes "_output") ≡ false
    → exec (output_dir fun_name sep) ≡ codes "./" ++ test_harness fun_name sep
unfolding exec
exec_lem fun_name sep h =
    ap (λ s. codes "./" ++ s)
      (ap (gsub_by output harness_name) (append_assoc fun_name output (suffix sep))
        ∙ (replaces fun_name (suffix sep) h
            ∙ (ap (λ s. fun_name ++ (harness_name ++ s)) (suffix-kept sep)
                ∙ sym (append_assoc fun_name harness_name (suffix sep)))))
