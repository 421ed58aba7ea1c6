-- ===== src/Frontend/TestNames/Written.antt =====
-- The name of the runner test is read back from the text that deepstate_fun_create writes.
use mathlib.Core.List.{append_assoc}
use rcpp_deep_state.Base.{◌≡◌, refl, ap, ap₂, sym, ◌∙◌, false, some, [], ◌∷◌, ◌++◌, All, codes}
use rcpp_deep_state.Frontend.Types.{Text}
use rcpp_deep_state.Frontend.Harness.{
  Sep, Function, ◌/◌, comment, headers, generation_comment, inputs, print_values, test_header,
  runner_body, unittest, harness,
}
use rcpp_deep_state.Frontend.TestNames.{
  runner_test, is_newline, read_lines, test_line, is_runner_line, harness_name_of,
}
use rcpp_deep_state.Frontend.TestNames.Split.{
  newline, IsWhole, IsPlain, unittest-IsWhole, split_by-word, split_by-append, harness_name_of_lem,
}

-- The harness up to the end of the generator test, and up to the line of the runner test.
unfoldable pub generator_part : Text → Function → Sep → Text
generator_part packagename f sep =
    comment f.fun_name sep
    ++ headers
    ++ codes "RInside Rinstance;\n\n"
    ++ f.prototype
    ++ codes "\n\n"
    ++ generation_comment sep f.arguments
    ++ inputs f.arguments
    ++ print_values f.arguments
    ++ test_header packagename (codes "generator")
    ++ codes "  INPUTS\n  PRINT_INPUTS\n}"

unfoldable pub before_runner : Text → Function → Sep → Text
unfolding generator_part
before_runner packagename f sep = generator_part packagename f sep ++ codes "\n\n"

-- A header, with what follows, is two line ends, the line of the test and a line end.
header-text :
    (u rest : Text)
    → (codes "\n\nTEST(" ++ u ++ codes ", " ++ codes "runner" ++ codes "){\n") ++ rest
      ≡ codes "\n\n" ++ ((codes "TEST(" ++ (u ++ codes ", runner){")) ++ (b'\n' ∷ rest))
header-text u rest =
    ap (λ s. codes "\n\nTEST(" ++ s)
      (append_assoc (u ++ codes ", " ++ codes "runner") (codes "){\n") rest
        ∙ (append_assoc (u ++ codes ", ") (codes "runner") (codes "){\n" ++ rest)
            ∙ (append_assoc u (codes ", ") (codes "runner){\n" ++ rest)
                ∙ sym (append_assoc u (codes ", runner){") (b'\n' ∷ rest)))))

-- The line of a test is one line, where the name of the package is.
rest-IsWhole : (u : Text) → IsWhole is_newline u → IsWhole is_newline (u ++ codes ", runner){")
unfolding is_newline
rest-IsWhole [] h =
    (refl, (refl, (refl, (refl, (refl, (refl, (refl, (refl, (refl, (refl, tt))))))))))
rest-IsWhole (c ∷ u) h = (h.0, rest-IsWhole u h.1)

test_line-IsWhole :
    (packagename : Text)
    → IsWhole is_newline packagename
    → IsWhole is_newline (test_line packagename (codes "runner"))
unfolding test_line is_newline
test_line-IsWhole packagename h = (
  refl,
  (
    refl,
    (
      refl,
      (
        refl,
        (refl, rest-IsWhole (unittest packagename) (unittest-IsWhole is_newline packagename h)),
      ),
    ),
  ),
)

module _ (packagename fun_path : Text) (f : Function) (sep : Sep) where
  after_runner : Text
  after_runner = runner_body (fun_path / codes "inputs") f sep ++ codes "\n}\n"

  harness-text :
      harness packagename fun_path f sep
      ≡ generator_part packagename f sep
        ++ (b'\n' ∷ b'\n' ∷ (test_line packagename (codes "runner") ++ (b'\n' ∷ after_runner)))
  unfolding harness generator_part after_runner test_line
  harness-text =
      let start = generator_part packagename f sep in
      let body = runner_body (fun_path / codes "inputs") f sep in
      append_assoc (start ++ test_header packagename (codes "runner")) body (codes "\n}\n")
      ∙ (append_assoc start (test_header packagename (codes "runner")) (body ++ codes "\n}\n")
          ∙ ap (λ s. start ++ s) (header-text (unittest packagename) (body ++ codes "\n}\n")))

  lines-harness :
      IsWhole is_newline packagename
      → read_lines (harness packagename fun_path f sep)
        ≡ read_lines (before_runner packagename f sep)
          ++ (test_line packagename (codes "runner") ∷ read_lines after_runner)
  unfolding before_runner generator_part
  lines-harness whole =
      let start = generator_part packagename f sep in
      let line = test_line packagename (codes "runner") in
      let end : Text = b'\n' ∷ [] in
      ap read_lines harness-text
      ∙ (ap read_lines (sym (append_assoc start end (b'\n' ∷ (line ++ (b'\n' ∷ after_runner)))))
          ∙ (split_by-append is_newline [] (start ++ end) (line ++ (b'\n' ∷ after_runner)) b'\n'
                newline
              ∙ ap₂ (λ ls ms. ls ++ ms) (ap read_lines (append_assoc start end end))
                  (split_by-word is_newline [] line after_runner b'\n'
                    (test_line-IsWhole packagename whole) newline)))

  -- For a package name without separators and line ends, deepstate_fuzz_fun_analyze reads back
  -- the name of the runner test from the text of the harness that deepstate_fun_create writes, of
  -- each kind, if no line before the runner test looks like its first.
  pub harness_name_of-harness :
      IsPlain packagename
      → IsWhole is_newline packagename
      → All (λ l. is_runner_line l ≡ false) (read_lines (before_runner packagename f sep))
      → harness_name_of (read_lines (harness packagename fun_path f sep))
        ≡ some (runner_test packagename)
  harness_name_of-harness plain whole none_before =
      ap harness_name_of (lines-harness whole)
      ∙ harness_name_of_lem packagename (read_lines (before_runner packagename f sep))
          (read_lines after_runner) plain none_before
