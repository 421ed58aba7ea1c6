-- ===== src/Frontend/Folder/Editable.antt =====
-- What deepstate_editable_fun leaves of the harness that was there.
use mathlib.Core.List.{reverse}
use rcpp_deep_state.Base.{
  ℕ, ◌≡◌, ◌≢◌, refl, ap, sym, ◌∙◌, true, false, none, some, [], ◌++◌, codes, nth, subst, is_in,
  Bool-cases, inl, inr, if_of_true, if_of_false, arith,
}
use rcpp_deep_state.Frontend.Types.{Text, unsupported_datatypes}
use rcpp_deep_state.Frontend.Harness.{infun, generation, checks, Function, filename}
use rcpp_deep_state.Frontend.Folder.{
  Folder, add, output_dir, create_makefile, makefile_name, write_harness, is_empty, create_in,
  editable_fun, remove_objects, Make, make, compile_fun,
}
use rcpp_deep_state.Frontend.Folder.Laws.{
  is_in-add, is_in-add-other, is_in-remove-same, is_in-remove,
}
use rcpp_deep_state.Frontend.Folder.Names.{
  makefile, filename_ne, checks_output_ne, inputs_ne, generation_ne, checks_filename_ne,
  checks_filename_ne_generation, checks_filename_ne_output,
}
use rcpp_deep_state.Frontend.Folder.Ready.{
  IsReady, before_unlink, on_new, compile_ready, compile_lacks, if_keeps, create_makefile-keeps,
  write_harness-IsReady,
}

-- The makefile is gone.
write_checks-lacks : (n : Text) (d : Folder) → is_in makefile (write_harness n checks d) ≡ false
unfolding write_harness before_unlink
write_checks-lacks n d =
    is_in-add-other makefile (codes "inputs") _ inputs_ne
    ∙ (is_in-add-other makefile (output_dir n checks) _ (checks_output_ne n)
        ∙ is_in-remove-same makefile (before_unlink n checks d))

module _ (n : Text) where
  create_makefile-other :
      (d : Folder) → is_in (filename n checks) (create_makefile n d) ≡ is_in (filename n checks) d
  unfolding create_makefile
  create_makefile-other d =
      is_in-add-other (filename n checks) makefile _ (filename_ne n checks)
      ∙ (is_in-add-other (filename n checks) (codes "inputs") _
            (checks_filename_ne n [] (codes "inputs") (λ (q : ◌≡◌ {A = ℕ} 115 112). omega arith))
          ∙ is_in-add-other (filename n checks) (output_dir n infun) d
              (checks_filename_ne_output n))

  generation_ends : (v t : Text) → nth 0 (reverse t ++ reverse v) ≡ 101 → filename n checks ≢ v ++ t
  generation_ends v t h = checks_filename_ne n v t (λ q. omega arith)

  before_unlink-other :
      (d : Folder)
      → is_in (filename n checks) (before_unlink n generation d) ≡ is_in (filename n checks) d
  unfolding before_unlink
  before_unlink-other d =
      let k : Text = filename n checks in
      let d₁ : Folder = add (filename n generation) d in
      let has = is_in makefile d₁ in
      let new = is_in-add-other k (filename n generation) d (checks_filename_ne_generation n) in
      let named = generation_ends [] (makefile_name generation) refl in
      is_in-add-other k (makefile_name generation) _ named ∙ elim (Bool-cases has) [
        | inl there ↦
            ap (is_in k)
              (if_of_true has (add (makefile_name generation) d₁) (create_makefile n d₁) there)
            ∙ (is_in-add-other k (makefile_name generation) d₁ named ∙ new)
        | inr gone ↦
            ap (is_in k)
              (if_of_false has (add (makefile_name generation) d₁) (create_makefile n d₁) gone)
            ∙ (create_makefile-other d₁ ∙ new)
      ]

  write_generation-other :
      (d : Folder)
      → is_in (filename n checks) (write_harness n generation d) ≡ is_in (filename n checks) d
  unfolding write_harness before_unlink
  write_generation-other d =
      let k : Text = filename n checks in
      is_in-add-other k (codes "inputs") _
        (checks_filename_ne n [] (codes "inputs") (λ (q : ◌≡◌ {A = ℕ} 115 112). omega arith))
      ∙ (is_in-add-other k (output_dir n generation) _ (
            checks_filename_ne n (n ++ codes "_output") (codes "_generation")
              (λ (q : ◌≡◌ {A = ℕ} 110 112). omega arith))
          ∙ (is_in-remove k makefile (before_unlink n generation d) (filename_ne n checks)
              ∙ before_unlink-other d))

  write_checks-keeps :
      (k : Text) (d : Folder)
      → k ≢ makefile
      → is_in k d ≡ true
      → is_in k (write_harness n checks d) ≡ true
  unfolding write_harness before_unlink
  write_checks-keeps k d other there = is_in-add k (codes "inputs") _ (
      is_in-add k (output_dir n checks) _ (
        is_in-remove k makefile (before_unlink n checks d) other
        ∙ is_in-add k (makefile_name checks) _ (
            if_keeps k (is_in makefile (add (filename n checks) d)) _ _
              (is_in-add k (makefile_name checks) _ (is_in-add k (filename n checks) d there))
              (create_makefile-keeps k n _ (is_in-add k (filename n checks) d there)))))

module _ (f : Function) (d : Folder) where
  both : Folder
  both = write_harness f.fun_name checks (write_harness f.fun_name generation d)

  editable_both :
      is_in (filename f.fun_name generation) d ≡ false
      → is_in (filename f.fun_name checks) d ≡ false
      → unsupported_datatypes f.arguments ≡ []
      → (editable_fun f d).1 ≡ both
  unfolding editable_fun both
  editable_both no_generation no_checks supported =
      let ok : is_empty (unsupported_datatypes f.arguments) ≡ true =
        ap (λ ts. is_empty ts) supported in
      let first = on_new f generation d no_generation ok in
      ap (λ r. (create_in f checks r.1).1) first
      ∙ ap (λ r. r.1)
          (on_new f checks (write_harness f.fun_name generation d)
            (write_generation-other f.fun_name d ∙ no_checks) ok)

  generation-IsReady : IsReady f.fun_name generation both
  unfolding both
  generation-IsReady =
      let before = write_harness-IsReady f.fun_name generation d in
      (
        write_checks-keeps f.fun_name (filename f.fun_name generation) _
            (filename_ne f.fun_name generation) before.0,
        write_checks-keeps f.fun_name (makefile_name generation) _ generation_ne before.1,
      )

-- The three harnesses of a function, after deepstate_editable_fun.
abbrev pub OnlyEditableCompile : Make → Text → Folder → Type 0
OnlyEditableCompile m n d =
    (compile_fun m n generation d ≡ some (make m n generation (remove_objects d)))
    × (compile_fun m n checks d ≡ some (make m n checks (remove_objects d)))
    × (compile_fun m n infun d ≡ none)

-- After deepstate_editable_fun has written both harnesses of a function whose datatypes are
-- allowed, deepstate_compile_fun finds these two and what it makes is what `make` gives, but it
-- stops for the harness of deepstate_pkg_create, whose makefile is gone.
pub editable_fun-OnlyEditableCompile :
    (m : Make) (f : Function) (d : Folder)
    → is_in (filename f.fun_name generation) d ≡ false
    → is_in (filename f.fun_name checks) d ≡ false
    → unsupported_datatypes f.arguments ≡ []
    → OnlyEditableCompile m f.fun_name (editable_fun f d).1
unfolding both
editable_fun-OnlyEditableCompile m f d no_generation no_checks supported =
    let n = f.fun_name in
    subst (OnlyEditableCompile m n) (sym (editable_both f d no_generation no_checks supported)) (
      compile_ready m n generation (both f d) (generation-IsReady f d),
      compile_ready m n checks (both f d)
          (write_harness-IsReady n checks (write_harness n generation d)),
      compile_lacks m n infun (both f d) (write_checks-lacks n (write_harness n generation d)),
    )
