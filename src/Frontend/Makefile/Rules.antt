-- ===== src/Frontend/Makefile/Rules.antt =====
-- Replacing the path of a harness in the rules of its makefile.
use mathlib.Core.List.{append_assoc, append-nil}
use rcpp_deep_state.Base.{
  ℕ, ◌<◌, ◌≤◌, ◌≡◌, refl, ap, sym, ◌∙◌, false, [], ◌∷◌, ◌++◌, codes, contains, length,
  has_substring, gsub_by, gsub_by_from, gsub_by-match, gsub_by-after, has_substring_short, arith,
}
use rcpp_deep_state.Frontend.Types.{Text}
use rcpp_deep_state.Frontend.Makefile.{
  Paths, settings, shared_objects, gen_rule, exe_rule, obj_rule, makefile,
}

-- The rules and what comes after them, in one row.
abbrev exe_text : Text → Text → Text → Text
exe_text objects path rest =
    path
    ++ (codes " : "
        ++ (path
            ++ (codes ".o\n\tclang++ -g -gdwarf-4 "
                ++ (path
                    ++ (codes ".o ${CPPFLAGS}  ${LDFLAGS}  ${LDLIBS} "
                        ++ (objects ++ (codes " -o " ++ (path ++ (codes "\n" ++ rest)))))))))

abbrev obj_text : Text → Text → Text
obj_text path rest =
    path
    ++ (codes ".o : "
        ++ (path
            ++ (codes ".cpp\n\tclang++ -g -gdwarf-4 -c  ${CPPFLAGS} "
                ++ (path ++ (codes ".cpp -o " ++ (path ++ (codes ".o\n" ++ rest)))))))

exe_rule_lem :
    (package_path path rest : Text)
    → exe_rule package_path path ++ rest ≡ exe_text (shared_objects package_path) path rest
unfolding exe_rule gen_rule
exe_rule_lem package_path path rest = simp append_assoc

obj_rule_lem : (path rest : Text) → obj_rule path ++ rest ≡ obj_text path rest
unfolding obj_rule gen_rule
obj_rule_lem path rest = simp append_assoc

rules_lem :
    (package_path path : Text)
    → exe_rule package_path path ++ (b'\n' ∷ obj_rule path)
      ≡ exe_text (shared_objects package_path) path (b'\n' ∷ obj_text path [])
rules_lem package_path path =
    exe_rule_lem package_path path (b'\n' ∷ obj_rule path)
    ∙ ap (λ rule. exe_text (shared_objects package_path) path (b'\n' ∷ rule))
        (sym (append-nil (obj_rule path)) ∙ obj_rule_lem path [])

module _ (c : ℕ) (p r : Text) (no_space : contains (c ∷ p) b' ' ≡ false)
    (no_newline : contains (c ∷ p) b'\n' ≡ false) (long : 39 ≤ length (c ∷ p)) where
  abbrev replace : Text → Text
  replace = gsub_by (c ∷ p) r

  over_path : (s t : Text) → replace s ≡ t → replace ((c ∷ p) ++ s) ≡ r ++ t
  over_path s t h = gsub_by-match c p r s ∙ ap (λ u. r ++ u) h

  over :
      (u : Text) (d : ℕ) (s t : Text)
      → contains (c ∷ p) d ≡ false
      → length u < length (c ∷ p)
      → replace s ≡ t
      → replace (u ++ (d ∷ s)) ≡ u ++ (d ∷ t)
  over u d s t stops short h =
      gsub_by-after c p r u s d stops (has_substring_short u (c ∷ p) short)
      ∙ ap (λ v. u ++ (d ∷ v)) h

  to_space :
      (u s t : Text) → length u < 39 → replace s ≡ t → replace (u ++ (b' ' ∷ s)) ≡ u ++ (b' ' ∷ t)
  to_space u s t short h = over u b' ' s t no_space (omega arith) h

  to_newline :
      (u s t : Text) → length u < 39 → replace s ≡ t → replace (u ++ (b'\n' ∷ s)) ≡ u ++ (b'\n' ∷ t)
  to_newline u s t short h = over u b'\n' s t no_newline (omega arith) h

  replace-exe_text :
      (objects s t : Text)
      → length objects < length (c ∷ p)
      → replace s ≡ t
      → replace (exe_text objects (c ∷ p) s) ≡ exe_text objects r t
  replace-exe_text objects s t short h = over_path _ _ (
      to_space (codes " :") _ _ (omega arith) (
        over_path _ _ (
          to_space (codes ".o\n\tclang++ -g -gdwarf-4") _ _ (omega arith) (
            over_path _ _ (
              to_space (codes ".o ${CPPFLAGS}  ${LDFLAGS}  ${LDLIBS}") _ _ (omega arith) (
                over objects b' ' _ _ no_space short (
                  to_space (codes "-o") _ _ (omega arith)
                    (over_path _ _ (to_newline [] _ _ (omega arith) h)))))))))

  replace-obj_text : (s t : Text) → replace s ≡ t → replace (obj_text (c ∷ p) s) ≡ obj_text r t
  replace-obj_text s t h = over_path _ _ (
      to_space (codes ".o :") _ _ (omega arith) (
        over_path _ _ (
          to_newline (codes ".cpp") _ _ (omega arith) (
            to_space (codes "\tclang++ -g -gdwarf-4 -c  ${CPPFLAGS}") _ _ (omega arith) (
              over_path _ _ (
                to_space (codes ".cpp -o") _ _ (omega arith)
                  (over_path _ _ (to_newline (codes ".o") _ _ (omega arith) h))))))))

-- What is in the file before its last line end.
abbrev pub body : Paths → Text → Text → Text
body r package_path path =
    settings r ++ (b'\n' ∷ (exe_rule package_path path ++ (b'\n' ∷ obj_rule path)))

pub makefile-body :
    (r : Paths) (package_path path : Text)
    → makefile r package_path path ≡ body r package_path path ++ codes "\n"
unfolding makefile
makefile-body r package_path path = simp append_assoc

-- The rules for one path become those for another.
pub replace-body :
    (r : Paths) (package_path : Text) (c : ℕ) (p other : Text)
    → contains (c ∷ p) b' ' ≡ false
    → contains (c ∷ p) b'\n' ≡ false
    → 39 ≤ length (c ∷ p)
    → length (shared_objects package_path) < length (c ∷ p)
    → has_substring (settings r) (c ∷ p) ≡ false
    → gsub_by (c ∷ p) other (body r package_path (c ∷ p)) ≡ body r package_path other
unfolding gsub_by gsub_by_from
replace-body r package_path c p other no_space no_newline long short absent =
    gsub_by-after c p other (settings r)
      (exe_rule package_path (c ∷ p) ++ (b'\n' ∷ obj_rule (c ∷ p))) b'\n' no_newline absent
    ∙ ap (λ s. settings r ++ (b'\n' ∷ s))
        (ap (gsub_by (c ∷ p) other) (rules_lem package_path (c ∷ p))
          ∙ (replace-exe_text c p other no_space no_newline long (shared_objects package_path) _ _
                short
                (to_newline c p other no_space no_newline long [] _ _ (omega arith)
                  (replace-obj_text c p other no_space no_newline long [] [] refl))
              ∙ sym (rules_lem package_path other)))
