-- ===== src/Frontend/Makefile/Laws.antt =====
-- The makefile of a generation or a checks harness is that of the harness with the other name.
use rcpp_deep_state.Base.{
  ℕ, ◌+◌, ◌<◌, ◌≤◌, ◌≡◌, refl, ap, sym, ◌∙◌, false, some, [], ◌∷◌, ◌++◌, codes, contains, length,
  length-append, contains-append, has_substring, map, gsub_by, arith,
}
use rcpp_deep_state.Frontend.Types.{Text}
use rcpp_deep_state.Frontend.Harness.{Sep, infun, test_harness, ◌/◌}
use rcpp_deep_state.Frontend.Makefile.{
  paste, Paths, Library, create_makefile_text, settings, fun_path, shared_objects, makefile,
  separate_makefile,
}
use rcpp_deep_state.Frontend.TestNames.{read_lines}
use rcpp_deep_state.Frontend.Makefile.Lines.{paste-read_lines}
use rcpp_deep_state.Frontend.Makefile.Rules.{body, makefile-body, replace-body}

-- The path of a harness of the function.
abbrev pub harness_path : Text → Text → Sep → Text
harness_path package_path fun_name sep = fun_path package_path fun_name / test_harness fun_name sep

contains-harness_path :
    (package_path fun_name : Text) (d : ℕ)
    → contains package_path d ≡ false
    → contains fun_name d ≡ false
    → contains (codes "/") d ≡ false
    → contains (codes "/inst/testfiles/") d ≡ false
    → contains (codes "_DeepState_TestHarness") d ≡ false
    → contains (harness_path package_path fun_name infun) d ≡ false
contains-harness_path package_path fun_name d h k slash dirs ending =
    contains-append (fun_path package_path fun_name) _ d
      (contains-append package_path _ d h
        (contains-append (codes "/inst/testfiles/") fun_name d dirs k))
      (contains-append (codes "/") _ d slash (
        contains-append (fun_name ++ codes "_DeepState_TestHarness") [] d
          (contains-append fun_name _ d k ending) refl))

length-harness_path :
    (package_path fun_name : Text)
    → length (harness_path package_path fun_name infun)
      ≡ (length package_path + (16 + length fun_name)) + (1 + (length fun_name + 22))
length-harness_path package_path fun_name =
    let ending = codes "_DeepState_TestHarness" in
    grind (
      arith,
      length-append (fun_path package_path fun_name) (codes "/" ++ test_harness fun_name infun),
      length-append package_path (codes "/inst/testfiles/" ++ fun_name),
      length-append (fun_name ++ ending) [],
      length-append fun_name ending,
    )

-- The file with another path, for one that make can take as a name.
renamed :
    (r : Paths) (package_path : Text) (c : ℕ) (p other : Text)
    → contains (c ∷ p) b' ' ≡ false
    → contains (c ∷ p) b'\n' ≡ false
    → 39 ≤ length (c ∷ p)
    → length (shared_objects package_path) < length (c ∷ p)
    → has_substring (settings r) (c ∷ p) ≡ false
    → paste
          (codes "\n")
          (map (gsub_by (c ∷ p) other) (read_lines (makefile r package_path (c ∷ p))))
        ++ codes "\n"
      ≡ makefile r package_path other
renamed r package_path c p other no_space no_newline long short absent =
    ap (λ t. paste (codes "\n") (map (gsub_by (c ∷ p) other) (read_lines t)) ++ codes "\n")
      (makefile-body r package_path (c ∷ p))
    ∙ (paste-read_lines c p other no_newline (body r package_path (c ∷ p))
        ∙ (ap (λ t. t ++ codes "\n")
              (replace-body r package_path c p other no_space no_newline long short absent)
            ∙ sym (makefile-body r package_path other)))

separate_makefile_lem :
    (r : Paths) (package_path fun_name : Text) (sep : Sep)
    → contains package_path b' ' ≡ false
    → contains package_path b'\n' ≡ false
    → contains fun_name b' ' ≡ false
    → contains fun_name b'\n' ≡ false
    → has_substring (settings r) (harness_path package_path fun_name infun) ≡ false
    → separate_makefile package_path fun_name sep
          (makefile r package_path (harness_path package_path fun_name infun))
        ++ codes "\n"
      ≡ makefile r package_path (harness_path package_path fun_name sep)
unfolding separate_makefile
separate_makefile_lem r [] fun_name sep space newline fun_space fun_newline absent =
    let n = length-harness_path [] fun_name in
    renamed r [] _ _ (harness_path [] fun_name sep)
      (contains-harness_path [] fun_name b' ' space fun_space refl refl refl)
      (contains-harness_path [] fun_name b'\n' newline fun_newline refl refl refl) (omega arith)
      (omega arith) absent
separate_makefile_lem r (c ∷ cs) fun_name sep space newline fun_space fun_newline absent =
    let n = length-harness_path (c ∷ cs) fun_name in
    renamed r (c ∷ cs) c _ (harness_path (c ∷ cs) fun_name sep)
      (contains-harness_path (c ∷ cs) fun_name b' ' space fun_space refl refl refl)
      (contains-harness_path (c ∷ cs) fun_name b'\n' newline fun_newline refl refl refl)
      (omega arith) (grind (arith, length-append (c ∷ cs) (codes "/src/*.so"))) absent

-- The makefile that is written, if one is.
text_of :
    (install : Library → Library) (r : Paths) (package_path fun_name : Text) (l : Library)
    (text : Text)
    → (create_makefile_text install r package_path fun_name l).0 ≡ some text
    → text ≡ makefile r package_path (harness_path package_path fun_name infun)
unfolding create_makefile_text
text_of install r package_path fun_name l text h = ground arith

-- If deepstate_create_makefile writes a makefile, what deepstate_fun_create makes of it for a
-- harness of each kind is, but for the last line end, the makefile with the rules of that harness
-- in place of those of the default one; the path of the package and the name of the function have
-- no space and no line end, and R's directories do not contain the path of the default harness.
pub separate_makefile-create_makefile_text :
    (install : Library → Library) (r : Paths) (package_path fun_name : Text) (l : Library)
    (text : Text) (sep : Sep)
    → (create_makefile_text install r package_path fun_name l).0 ≡ some text
    → contains package_path b' ' ≡ false
    → contains package_path b'\n' ≡ false
    → contains fun_name b' ' ≡ false
    → contains fun_name b'\n' ≡ false
    → has_substring (settings r) (harness_path package_path fun_name infun) ≡ false
    → separate_makefile package_path fun_name sep text ++ codes "\n"
      ≡ makefile r package_path (harness_path package_path fun_name sep)
separate_makefile-create_makefile_text install r package_path fun_name l text sep h space newline
      fun_space fun_newline absent =
    ap (λ t. separate_makefile package_path fun_name sep t ++ codes "\n")
      (text_of install r package_path fun_name l text h)
    ∙ separate_makefile_lem r package_path fun_name sep space newline fun_space fun_newline absent
