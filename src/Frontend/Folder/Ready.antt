-- ===== src/Frontend/Folder/Ready.antt =====
-- deepstate_compile_fun finds the harness that deepstate_fun_create gives, and its makefile.
use rcpp_deep_state.Base.{
  ◌≡◌, ◌≢◌, refl, ap, sym, ◌∙◌, Bool, true, false, Option, none, some, codes, subst, is_in,
  Bool-cases, inl, inr, if◌then◌else◌, if_of_true, if_of_false, arith,
}
use rcpp_deep_state.Frontend.Types.{Text, unsupported_datatypes}
use rcpp_deep_state.Frontend.Harness.{Sep, infun, generation, checks, Function, filename}
use rcpp_deep_state.Frontend.Folder.{
  Folder, add, output_dir, create_makefile, makefile_name, add_editable, write_harness, is_empty,
  create_in, remove_objects, Make, make, compile_fun,
}
use rcpp_deep_state.Frontend.Folder.Laws.{is_in-add-same, is_in-add, is_in-remove}
use rcpp_deep_state.Frontend.Folder.Names.{makefile, filename_ne, generation_ne, checks_ne}

-- The harness and its makefile are there.
abbrev pub IsReady : Text → Sep → Folder → Type 0
IsReady n sep d = (is_in (filename n sep) d ≡ true) × (is_in (makefile_name sep) d ≡ true)

pub compile_ready :
    (m : Make) (n : Text) (sep : Sep) (d : Folder)
    → IsReady n sep d
    → compile_fun m n sep d ≡ some (make m n sep (remove_objects d))
unfolding compile_fun
compile_ready m n sep d (h, k) = rw (h, k) refl

pub compile_lacks :
    (m : Make) (n : Text) (sep : Sep) (d : Folder)
    → is_in (makefile_name sep) d ≡ false
    → compile_fun m n sep d ≡ none
unfolding compile_fun
compile_lacks m n sep d h = ground arith

-- What both branches keep is kept.
pub if_keeps :
    (k : Text) (b : Bool) (x y : Folder)
    → is_in k x ≡ true
    → is_in k y ≡ true
    → is_in k (if b then x else y) ≡ true
if_keeps k true x y p q = p
if_keeps k false x y p q = q

-- deepstate_create_makefile adds the makefile and keeps the files.
pub create_makefile-keeps :
    (k n : Text) (d : Folder) → is_in k d ≡ true → is_in k (create_makefile n d) ≡ true
unfolding create_makefile
create_makefile-keeps k n d h =
    is_in-add k makefile _ (is_in-add k (codes "inputs") _ (is_in-add k (output_dir n infun) d h))

pub create_makefile-makefile : (n : Text) (d : Folder) → is_in makefile (create_makefile n d) ≡ true
unfolding create_makefile
create_makefile-makefile n d = is_in-add-same makefile _

module _ (n : Text) (sep : Sep) (d : Folder) where
  -- The folder of a new editable harness before the makefile is unlinked.
  unfoldable pub before_unlink : Folder
  before_unlink =
      let d₁ : Folder = add (filename n sep) d in
      add (makefile_name sep)
        (if is_in makefile d₁ then add (makefile_name sep) d₁ else create_makefile n d₁)

  before_unlink-filename : is_in (filename n sep) before_unlink ≡ true
  unfolding before_unlink
  before_unlink-filename =
      let d₁ : Folder = add (filename n sep) d in
      let there = is_in-add-same (filename n sep) d in
      is_in-add (filename n sep) (makefile_name sep) _ (elim (Bool-cases (is_in makefile d₁)) [
        | inl has ↦
            ap (is_in (filename n sep)) (
              if_of_true (is_in makefile d₁) (add (makefile_name sep) d₁) (create_makefile n d₁)
                has)
            ∙ is_in-add (filename n sep) (makefile_name sep) d₁ there
        | inr lacks ↦
            ap (is_in (filename n sep)) (
              if_of_false (is_in makefile d₁) (add (makefile_name sep) d₁) (create_makefile n d₁)
                lacks)
            ∙ create_makefile-keeps (filename n sep) n d₁ there
      ])

  add_editable-IsReady :
      makefile_name sep ≢ makefile → IsReady n sep (add (codes "inputs") (add_editable n sep d))
  unfolding before_unlink
  add_editable-IsReady other = (
    is_in-add _ (codes "inputs") _ (
        is_in-add _ (output_dir n sep) _ (
          is_in-remove (filename n sep) makefile before_unlink (filename_ne n sep)
          ∙ before_unlink-filename)),
    is_in-add _ (codes "inputs") _ (
        is_in-add _ (output_dir n sep) _ (
          is_in-remove (makefile_name sep) makefile before_unlink other
          ∙ is_in-add-same (makefile_name sep) _)),
  )

pub write_harness-IsReady :
    (n : Text) (sep : Sep) (d : Folder) → IsReady n sep (write_harness n sep d)
unfolding write_harness
write_harness-IsReady n infun d = (
  is_in-add (filename n infun) (codes "inputs") _
      (create_makefile-keeps (filename n infun) n _ (is_in-add-same (filename n infun) d)),
  is_in-add makefile (codes "inputs") _ (create_makefile-makefile n _),
)
write_harness-IsReady n generation d = add_editable-IsReady n generation d generation_ne
write_harness-IsReady n checks d = add_editable-IsReady n checks d checks_ne

module _ (f : Function) (sep : Sep) (d : Folder) where
  pub on_existing :
      is_in (filename f.fun_name sep) d ≡ true
      → create_in f sep d ≡ (some (filename f.fun_name sep), create_makefile f.fun_name d)
  unfolding create_in
  on_existing h = rw h refl

  pub on_new :
      is_in (filename f.fun_name sep) d ≡ false
      → is_empty (unsupported_datatypes f.arguments) ≡ true
      → create_in f sep d ≡ (some (filename f.fun_name sep), write_harness f.fun_name sep d)
  unfolding create_in
  on_new h e = rw (h, e) refl

  pub on_unsupported :
      is_in (filename f.fun_name sep) d ≡ false
      → is_empty (unsupported_datatypes f.arguments) ≡ false
      → create_in f sep d ≡ (none, d)
  unfolding create_in
  on_unsupported h e = rw (h, e) refl

pub created-IsReady :
    (f : Function) (d : Folder)
    → (create_in f infun d).0 ≢ none
    → IsReady f.fun_name infun (create_in f infun d).1
created-IsReady f d h =
    let Ready : Option Text × Folder → Type 0 = λ r. IsReady f.fun_name infun r.1 in
    elim (Bool-cases (is_in (filename f.fun_name infun) d)) [
      | inl there ↦ subst Ready (sym (on_existing f infun d there)) (
        create_makefile-keeps (filename f.fun_name infun) f.fun_name d there,
        create_makefile-makefile f.fun_name d,
      )
      | inr new ↦ elim (Bool-cases (is_empty (unsupported_datatypes f.arguments))) [
        | inl supported ↦
            subst Ready (sym (on_new f infun d new supported))
              (write_harness-IsReady f.fun_name infun d)
        | inr unsupported ↦ absurd (h (ap (λ r. r.0) (on_unsupported f infun d new unsupported)))
      ]
    ]

-- After a deepstate_fun_create of the plain harness that does not give NA, in a folder with any
-- files, deepstate_compile_fun does not stop: the old objects are removed and `make` runs.
pub compile_fun-create_in :
    (m : Make) (f : Function) (d : Folder)
    → (create_in f infun d).0 ≢ none
    → compile_fun m f.fun_name infun (create_in f infun d).1
      ≡ some (make m f.fun_name infun (remove_objects (create_in f infun d).1))
compile_fun-create_in m f d h =
    compile_ready m f.fun_name infun (create_in f infun d).1 (created-IsReady f d h)
