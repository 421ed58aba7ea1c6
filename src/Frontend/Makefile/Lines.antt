-- ===== src/Frontend/Makefile/Lines.antt =====
-- Replacing in each line of a text is replacing in the text.
use mathlib.Core.List.{append_assoc, append-nil}
use rcpp_deep_state.Base.{
  ℕ, ◌≡◌, refl, ap, sym, ◌∙◌, false, inl, inr, List, [], ◌∷◌, ◌++◌, map, codes, contains, gsub_by,
  gsub_by-append, Bool-cases,
}
use rcpp_deep_state.Frontend.Types.{Text}
use rcpp_deep_state.Frontend.TestNames.{is_newline, split_by, read_lines}
use rcpp_deep_state.Frontend.TestNames.Split.{at_end, within_word, newline, newline_of}
use rcpp_deep_state.Frontend.Makefile.{paste}

-- Each line with its end.
abbrev unlines : List Text → Text
unlines [] = []
unlines (l ∷ ls) = l ++ (b'\n' ∷ unlines ls)

unlines-paste :
    (l : Text) (ls : List Text) → unlines (l ∷ ls) ≡ paste (codes "\n") (l ∷ ls) ++ codes "\n"
unfolding paste
unlines-paste l [] = refl
unlines-paste l (m ∷ ls) =
    ap (λ t. l ++ (b'\n' ∷ t)) (unlines-paste m ls)
    ∙ sym (append_assoc l (b'\n' ∷ paste (codes "\n") (m ∷ ls)) (codes "\n"))

paste_of_lines :
    (ls : List Text) (t : Text)
    → unlines ls ≡ t ++ codes "\n"
    → paste (codes "\n") ls ++ codes "\n" ≡ t ++ codes "\n"
paste_of_lines [] [] h = cc
paste_of_lines [] (c ∷ t) h = cc
paste_of_lines (l ∷ ls) t h = sym (unlines-paste l ls) ∙ h

module _ (c : ℕ) (p r : Text) (h : contains (c ∷ p) b'\n' ≡ false) where
  abbrev replace : Text → Text
  replace = gsub_by (c ∷ p) r

  by_lines :
      (read s : Text)
      → unlines (map replace (split_by is_newline read (s ++ codes "\n")))
        ≡ replace (read ++ s) ++ codes "\n"
  unfolding split_by
  by_lines read [] =
      ap (λ ls. unlines (map replace ls)) (at_end is_newline read b'\n' [] newline)
      ∙ ap (λ t. replace t ++ codes "\n") (sym (append-nil read))
  by_lines read (d ∷ s) = elim (Bool-cases (is_newline d)) [
    | inl ends ↦
        ap (λ ls. unlines (map replace ls)) (at_end is_newline read d (s ++ codes "\n") ends)
        ∙ (ap (λ t. replace read ++ (b'\n' ∷ t)) (by_lines [] s)
            ∙ (sym (append_assoc (replace read) (b'\n' ∷ replace s) (codes "\n"))
                ∙ ap (λ t. t ++ codes "\n")
                    (sym (gsub_by-append c p r read s b'\n' h)
                      ∙ ap (λ e. replace (read ++ (e ∷ s))) (sym (newline_of d ends)))))
    | inr goes_on ↦
        ap (λ ls. unlines (map replace ls))
          (within_word is_newline read d (s ++ codes "\n") goes_on)
        ∙ (by_lines (read ++ (d ∷ [])) s
            ∙ ap (λ t. replace t ++ codes "\n") (append_assoc read (d ∷ []) s))
  ]

  -- For a text that ends its last line; `cat` does not.
  pub paste-read_lines :
      (s : Text)
      → paste (codes "\n") (map replace (read_lines (s ++ codes "\n"))) ++ codes "\n"
        ≡ replace s ++ codes "\n"
  paste-read_lines s =
      paste_of_lines (map replace (read_lines (s ++ codes "\n"))) (replace s) (by_lines [] s)
