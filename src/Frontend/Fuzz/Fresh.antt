-- ===== src/Frontend/Fuzz/Fresh.antt =====
-- The harnesses that deepstate_pkg_create writes for a package without any are not compiled yet.
use mathlib.Core.List.{append-nil, reverse}
use rcpp_deep_state.Base.{
  ℕ, ◌≡◌, ◌≢◌, refl, ap, sym, ◌∙◌, subst, true, false, Option, List, [], ◌∷◌, ◌++◌, map, All, codes,
  str_eq, str_eq_lem, is_in, ends_ne, nth, Bool-cases, inl, inr, arith,
}
use rcpp_deep_state.Frontend.Types.{Text}
use rcpp_deep_state.Frontend.Types.Laws.{IsAllowed, IsAllowed-unsupported}
use rcpp_deep_state.Frontend.Harness.{infun, Function, filename, test_harness}
use rcpp_deep_state.Frontend.Folder.{
  Folder, output_dir, object, is_empty, write_harness, create_makefile, create_in,
}
use rcpp_deep_state.Frontend.Folder.Laws.{is_in-add-other}
use rcpp_deep_state.Frontend.Folder.Ready.{IsReady, on_new, write_harness-IsReady}
use rcpp_deep_state.Frontend.Package.{Tree, put, Counts, count, create_all}
use rcpp_deep_state.Frontend.Package.Loop.{AreDistinct, put-same, put-other, create_all-other}
use rcpp_deep_state.Frontend.Package.Laws.{turn}

-- A harness that is not compiled yet.
abbrev pub IsFresh : Text → Folder → Type 0
IsFresh n d = IsReady n infun d × (is_in (object n infun) d ≡ false)

module _ (n : Text) where
  object_ne : (v t : Text) → nth 0 (reverse t ++ reverse v) ≢ 111 → object n infun ≢ v ++ t
  object_ne v t h = ends_ne 0 (test_harness n infun) (codes ".o") v t (λ q. h (sym q))

  object_ne_output : object n infun ≢ output_dir n infun
  object_ne_output e =
      object_ne n (codes "_output") (λ (q : ◌≡◌ {A = ℕ} 116 111). omega arith)
        (e ∙ append-nil (n ++ codes "_output"))

  write_harness-object : is_in (object n infun) (write_harness n infun []) ≡ false
  unfolding write_harness create_makefile
  write_harness-object =
      let k : Text = object n infun in
      let inputs_ne : k ≢ codes "inputs" =
        object_ne [] (codes "inputs") (λ (q : ◌≡◌ {A = ℕ} 115 111). omega arith) in
      is_in-add-other k (codes "inputs") _ inputs_ne
      ∙ (is_in-add-other k (codes "Makefile") _
            (object_ne [] (codes "Makefile") (λ (q : ◌≡◌ {A = ℕ} 101 111). omega arith))
          ∙ (is_in-add-other k (codes "inputs") _ inputs_ne
              ∙ (is_in-add-other k (output_dir n infun) _ object_ne_output
                  ∙ is_in-add-other k (filename n infun) [] (
                      object_ne (test_harness n infun) (codes ".cpp")
                        (λ (q : ◌≡◌ {A = ℕ} 112 111). omega arith)))))

  write_harness-IsFresh : IsFresh n (write_harness n infun [])
  write_harness-IsFresh = (write_harness-IsReady n infun [], write_harness-object)

put_empty :
    (f : Function) (d : Folder) (t : Tree) (fs : List Function)
    → All (λ g. f.fun_name ≢ g.fun_name) fs
    → All (λ g. t g.fun_name ≡ []) fs
    → All (λ g. put f.fun_name d t g.fun_name ≡ []) fs
put_empty f d t [] h e = tt
put_empty f d t (g ∷ fs) h e =
    (put-other f.fun_name g.fun_name d t h.0 ∙ e.0, put_empty f d t fs h.1 e.1)

abbrev pub AreAllowed : Function → Type 0
AreAllowed f = All IsAllowed f.arguments

create_in_new :
    (f : Function) (d : Folder)
    → AreAllowed f
    → d ≡ []
    → (create_in f infun d).1 ≡ write_harness f.fun_name infun []
create_in_new f d allowed e =
    ap (λ x. (create_in f infun x).1) e
    ∙ ap (λ r. r.1)
        (on_new f infun [] refl
          (ap (λ ts. is_empty ts) (IsAllowed-unsupported f.arguments allowed)))

pub create_all-IsFresh :
    (fs : List Function) (c : Counts) (t : Tree)
    → AreDistinct fs
    → All AreAllowed fs
    → All (λ f. t f.fun_name ≡ []) fs
    → All (λ f. IsFresh f.fun_name ((create_all fs c t).1 f.fun_name)) fs
unfolding create_all
create_all-IsFresh [] c t distinct allowed e = tt
create_all-IsFresh (f ∷ fs) c t distinct allowed e =
    let n = f.fun_name in
    let r : Option Text × Folder = create_in f infun (t n) in
    let c₁ : Counts = count f r.0 c in
    let u : Tree = put n r.1 t in
    (
      subst (IsFresh n)
          (sym (
            create_all-other n fs c₁ u (turn n fs distinct.0)
            ∙ (put-same n r.1 t ∙ create_in_new f (t n) allowed.0 e.0)))
          (write_harness-IsFresh n),
      create_all-IsFresh fs c₁ u distinct.1 allowed.1 (put_empty f r.1 t fs distinct.0 e.1),
    )

abbrev pub name_of : Function → Text
name_of f = f.fun_name

pub All-is_in :
    (P : Text → Type 0) (fs : List Function) (n : Text)
    → All (λ f. P f.fun_name) fs
    → is_in n (map name_of fs) ≡ true
    → P n
All-is_in P [] n h i = cc
All-is_in P (f ∷ fs) n h i = elim (Bool-cases (str_eq n f.fun_name)) [
  | inl same ↦ subst P (sym (str_eq_lem n f.fun_name same)) h.0
  | inr other ↦ All-is_in P fs n h.1 (ground arith)
]

-- No function has a folder yet.
abbrev pub no_files : Tree
no_files name = []
