-- ===== src/Frontend/Ranges/Fresh.antt =====
-- A new generation harness has every range missing.
use mathlib.Core.List.{append_assoc}
use rcpp_deep_state.Base.{
  ◌≡◌, ◌↔◌, ap, sym, ◌∙◌, true, false, none, some, List, [], ◌∷◌, ◌++◌, All, codes, has_substring,
  has_substring-left, has_substring-right,
}
use rcpp_deep_state.Frontend.Types.{Text, Argument, type_arg, args_of}
use rcpp_deep_state.Frontend.Types.Laws.{IsAllowed}
use rcpp_deep_state.Frontend.Harness.{
  generation, Function, ◌/◌, comment, headers, generation_comment, range_comment, collect, inputs,
  print_values, test_header, runner_body, harness,
}
use rcpp_deep_state.Frontend.TestNames.{is_newline, read_lines}
use rcpp_deep_state.Frontend.TestNames.Split.{newline, split_by-append}
use rcpp_deep_state.Frontend.Ranges.{missing_ranges}
use rcpp_deep_state.Frontend.Ranges.Given.{
  IsMissing, WarnsOf, missing_ranges_iff, missing_ranges-WarnsOf,
}
use rcpp_deep_state.Frontend.Ranges.Search.{
  has_line, first_with-has_line, has_line-split_by, missing_ranges-stops,
}
use rcpp_deep_state.Frontend.Ranges.Comments.{call_of, comment_of, range-IsReadBack, comment_lines}
use rcpp_deep_state.Frontend.Ranges.Inputs.{pattern_of, allowed-IsDrawn, inputs-pattern}

chain :
    (a b c d e f g h i : Text)
    → a ++ b ++ c ++ d ++ e ++ f ++ g ++ h ++ i
      ≡ a ++ (b ++ (c ++ (d ++ (e ++ (f ++ (g ++ (h ++ i)))))))
chain a b c d e f g h i =
    append_assoc (a ++ b ++ c ++ d ++ e ++ f ++ g) h i
    ∙ (append_assoc (a ++ b ++ c ++ d ++ e ++ f) g (h ++ i)
        ∙ (append_assoc (a ++ b ++ c ++ d ++ e) f (g ++ (h ++ i))
            ∙ (append_assoc (a ++ b ++ c ++ d) e (f ++ (g ++ (h ++ i)))
                ∙ (append_assoc (a ++ b ++ c) d (e ++ (f ++ (g ++ (h ++ i))))
                    ∙ (append_assoc (a ++ b) c (d ++ (e ++ (f ++ (g ++ (h ++ i)))))
                        ∙ append_assoc a b (c ++ (d ++ (e ++ (f ++ (g ++ (h ++ i)))))))))))

module _ (packagename fun_path : Text) (f : Function) where
  start : Text
  start =
      comment f.fun_name generation
      ++ headers
      ++ codes "RInside Rinstance;\n\n"
      ++ f.prototype
      ++ codes "\n\n"

  after_inputs : Text
  after_inputs =
      print_values f.arguments
      ++ (test_header packagename (codes "generator")
          ++ (codes "  INPUTS\n  PRINT_INPUTS\n}"
              ++ (test_header packagename (codes "runner")
                  ++ (runner_body (fun_path / codes "inputs") f generation ++ codes "\n}\n"))))

  harness-parts :
      harness packagename fun_path f generation
      ≡ start ++ (generation_comment generation f.arguments ++ (inputs f.arguments ++ after_inputs))
  unfolding harness start after_inputs
  harness-parts =
      chain
        (comment f.fun_name generation
          ++ headers
          ++ codes "RInside Rinstance;\n\n"
          ++ f.prototype
          ++ codes "\n\n")
        (generation_comment generation f.arguments) (inputs f.arguments) (print_values f.arguments)
        (test_header packagename (codes "generator")) (codes "  INPUTS\n  PRINT_INPUTS\n}")
        (test_header packagename (codes "runner"))
        (runner_body (fun_path / codes "inputs") f generation) (codes "\n}\n")

  -- The comments follow a line of their own.
  harness-lines :
      read_lines (harness packagename fun_path f generation)
      ≡ read_lines (start ++ codes "// RANGES CAN BE ADDED HERE" ++ codes "\n")
        ++ read_lines (collect range_comment f.arguments ++ (inputs f.arguments ++ after_inputs))
  harness-lines =
      let more : Text = collect range_comment f.arguments ++ (inputs f.arguments ++ after_inputs) in
      let title : Text = codes "// RANGES CAN BE ADDED HERE" in
      ap read_lines harness-parts
      ∙ (ap read_lines (sym (append_assoc start title (b'\n' ∷ more)))
          ∙ split_by-append is_newline [] (start ++ title) more b'\n' newline)

  -- On the lines of a new generation harness with an argument that has a range, all datatypes up
  -- to it being allowed, deepstate_compile_generate_fun stops if continue_on_missing is FALSE,
  -- and otherwise a line with the call of its generator without a range is among those that it
  -- warns of. On any lines, as a user may leave them, it goes on to the run with FALSE exactly if
  -- no line has a comment (what is between the first two slashes and the last parenthesis) whose
  -- call without a range is in a line of the file.
  pub missing_ranges-harness :
      (before : List Argument) (r : Argument) (after : List Argument) (args : Text)
      (edited : List Text)
      → f.arguments ≡ before ++ (r ∷ after)
      → All IsAllowed before
      → IsAllowed r
      → args_of (type_arg r.argument_type) ≡ some args
      → (missing_ranges false (read_lines (harness packagename fun_path f generation)) ≡ none)
        × WarnsOf
            (codes " RcppDeepState_" ++ type_arg r.argument_type ++ codes "();")
            (missing_ranges true (read_lines (harness packagename fun_path f generation)))
        × ((missing_ranges false edited ≡ some []) ↔ All (λ l. ¬ IsMissing edited l) edited)
  missing_ranges-harness before r after args edited here allowed allowed_r ranged =
      let t = type_arg r.argument_type in
      let more : Text = inputs f.arguments ++ after_inputs in
      let (x, back) = range-IsReadBack t args allowed_r ranged in
      let (ls, e) = comment_lines before r after x more allowed back in
      let opening : List Text =
        read_lines (start ++ codes "// RANGES CAN BE ADDED HERE" ++ codes "\n") in
      let rest : List Text = read_lines (collect range_comment after ++ more) in
      let split =
        harness-lines
        ∙ (ap (λ rs. opening ++ read_lines (collect range_comment rs ++ more)) here
            ∙ (ap (λ ms. opening ++ ms) e
                ∙ sym (append_assoc opening ls (comment_of t x ∷ rest)))) in
      let pattern : Text = pattern_of t in
      let found : has_substring (inputs f.arguments) pattern ≡ true =
        ap (λ rs. has_substring (inputs rs) pattern) here
        ∙ inputs-pattern before r after allowed_r in
      let in_text : has_substring (harness packagename fun_path f generation) pattern ≡ true =
        ap (λ s. has_substring s pattern) harness-parts
        ∙ has_substring-right start _ pattern (
            has_substring-right (generation_comment generation f.arguments)
              (inputs f.arguments ++ after_inputs) pattern
              (has_substring-left (inputs f.arguments) after_inputs pattern found)) in
      let lines : List Text = read_lines (harness packagename fun_path f generation) in
      let called : has_line pattern lines ≡ true =
        has_line-split_by b' ' (codes "RcppDeepState_" ++ t ++ codes "();") []
          (harness packagename fun_path f generation) (allowed-IsDrawn t allowed_r).1 in_text in
      (
        missing_ranges-stops lines (opening ++ ls) rest (comment_of t x) (call_of t) split back.2
            (first_with-has_line pattern lines called),
        missing_ranges-WarnsOf lines (opening ++ ls) rest (comment_of t x) (call_of t) split back.2
            called,
        missing_ranges_iff edited,
      )
