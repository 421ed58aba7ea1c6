-- ===== src/Frontend/Package/Again.antt =====
-- A second run of deepstate_pkg_create.
use rcpp_deep_state.Base.{
  or_right, ◌≡◌, ◌≢◌, refl, ap, ap₂, sym, ◌∙◌, Bool, ◌||◌, Option, List, [], ◌∷◌, All, is_in,
  Bool-cases, inl, inr, if◌then◌else◌,
}
use rcpp_deep_state.Frontend.Types.{Text, unsupported_datatypes}
use rcpp_deep_state.Frontend.Harness.{infun, Function, filename}
use rcpp_deep_state.Frontend.Folder.{Folder, is_empty, create_in}
use rcpp_deep_state.Frontend.Folder.Ready.{on_existing, on_unsupported, create_makefile-keeps}
use rcpp_deep_state.Frontend.Package.{
  Tree, put, clean, Counts, no_counts, count, create_all, harnesses, stopped, pkg_create,
}
use rcpp_deep_state.Frontend.Package.Loop.{
  is_testable, testable_harnesses, AreDistinct, put-same, put-other, create_all-other,
}
use rcpp_deep_state.Frontend.Package.Laws.{clean-harnesses, turn, pkg_create_lem}

-- Whether a function with that folder is testable.
abbrev testable_in : Function → Folder → Bool
testable_in f d =
    is_in (filename f.fun_name infun) d || is_empty (unsupported_datatypes f.arguments)

module _ (f : Function) (d : Folder) where
  create_in-testable : testable_in f (create_in f infun d).1 ≡ testable_in f d
  create_in-testable =
      let name = filename f.fun_name infun in
      let testable : Option Text × Folder → Bool = λ r. testable_in f r.1 in
      elim (Bool-cases (is_in name d)) [
        | inl there ↦
            ap testable (on_existing f infun d there)
            ∙ ap₂ (λ a b. a || b) (create_makefile-keeps name f.fun_name d there ∙ sym there) refl
        | inr new ↦ elim (Bool-cases (is_empty (unsupported_datatypes f.arguments))) [
          | inl ok ↦ or_right _ _ ok ∙ sym (or_right _ _ ok)
          | inr refused ↦ ap testable (on_unsupported f infun d new refused)
        ]
      ]

after_put :
    (n : Text) (d : Folder) (t after : Tree) (fs : List Function)
    → All (λ f. n ≢ f.fun_name) fs
    → All (λ f. is_testable after f ≡ is_testable (put n d t) f) fs
    → All (λ f. is_testable after f ≡ is_testable t f) fs
after_put n d t after [] other h = tt
after_put n d t after (f ∷ fs) other h = (
  h.0 ∙ ap (testable_in f) (put-other n f.fun_name d t other.0),
  after_put n d t after fs other.1 h.1,
)

create_all-testable :
    (fs : List Function) (c : Counts) (t : Tree)
    → AreDistinct fs
    → All (λ f. is_testable (create_all fs c t).1 f ≡ is_testable t f) fs
unfolding create_all
create_all-testable [] c t distinct = tt
create_all-testable (f ∷ fs) c t distinct =
    let n = f.fun_name in
    let r : Option Text × Folder = create_in f infun (t n) in
    let c₁ : Counts = count f r.0 c in
    let u : Tree = put n r.1 t in
    (
      ap (testable_in f) (create_all-other n fs c₁ u (turn n fs distinct.0) ∙ put-same n r.1 t)
          ∙ create_in-testable f (t n),
      after_put n r.1 t (create_all fs c₁ u).1 fs distinct.0
          (create_all-testable fs c₁ u distinct.1),
    )

same_harnesses :
    (t u : Tree) (fs : List Function)
    → All (λ f. is_testable t f ≡ is_testable u f) fs
    → testable_harnesses t fs ≡ testable_harnesses u fs
unfolding testable_harnesses
same_harnesses t u [] h = refl
same_harnesses t u (f ∷ fs) h =
    ap₂ (λ b rest. if b then filename f.fun_name infun ∷ rest else rest) h.0
      (same_harnesses t u fs h.1)

same_after :
    (functions : List Function) (t : Tree)
    → AreDistinct functions
    → testable_harnesses (pkg_create functions t).1 functions ≡ testable_harnesses t functions
unfolding pkg_create
same_after functions t distinct =
    same_harnesses _ (clean t) functions
      (create_all-testable functions no_counts (clean t) distinct)
    ∙ clean-harnesses t functions

-- For functions of different names a second deepstate_pkg_create, on what the first one left,
-- returns what the first one returned.
pub pkg_create_again :
    (functions : List Function) (t : Tree)
    → AreDistinct functions
    → (pkg_create functions (pkg_create functions t).1).0 ≡ (pkg_create functions t).0
pkg_create_again functions t distinct =
    pkg_create_lem functions (pkg_create functions t).1 distinct
    ∙ (ap (λ hs. if is_empty hs then stopped else harnesses hs) (same_after functions t distinct)
        ∙ sym (pkg_create_lem functions t distinct))
