-- ===== src/Frontend/Package/Laws.antt =====
-- What deepstate_pkg_create returns, and that what it created can be compiled.
use rcpp_deep_state.Base.{
  ℕ, suc, ◌+◌, ◌≡◌, ◌≢◌, refl, ap, ap₂, sym, ◌∙◌, subst, Bool, true, false, ◌||◌, Option, none,
  some, List, [], ◌∷◌, ◌++◌, All, length, str_eq_refl, is_in, if◌then◌else◌, if_of_true, arith,
}
use rcpp_deep_state.Frontend.Types.{Text, unsupported_datatypes}
use rcpp_deep_state.Frontend.Harness.{infun, Function, filename}
use rcpp_deep_state.Frontend.Folder.{
  Folder, is_empty, create_in, remove_objects, Make, make, compile_fun,
}
use rcpp_deep_state.Frontend.Folder.Ready.{IsReady, created-IsReady, compile_ready}
use rcpp_deep_state.Frontend.Package.{
  Tree, put, clean_folder, clean, Counts, no_counts, count, create_all, harnesses, stopped, result,
  pkg_create,
}
use rcpp_deep_state.Frontend.Package.Loop.{
  is_testable, testable_harnesses, untestable, AreDistinct, put-same, put-other, create_in_lem,
  add_counts, totals, create_all-totals, create_all-other,
}

-- Cleaning keeps the harness, and adds none.
clean_folder-harness :
    (n : Text) (d : Folder)
    → is_in (filename n infun) (clean_folder n d) ≡ is_in (filename n infun) d
unfolding clean_folder
clean_folder-harness n d = ground (arith, str_eq_refl (filename n infun))

clean-testable : (t : Tree) (f : Function) → is_testable (clean t) f ≡ is_testable t f
unfolding clean
clean-testable t f =
    ap (λ b. b || is_empty (unsupported_datatypes f.arguments))
      (clean_folder-harness f.fun_name (t f.fun_name))

pub clean-harnesses :
    (t : Tree) (fs : List Function) → testable_harnesses (clean t) fs ≡ testable_harnesses t fs
unfolding testable_harnesses
clean-harnesses t [] = refl
clean-harnesses t (f ∷ fs) =
    ap₂ (λ b rest. if b then filename f.fun_name infun ∷ rest else rest) (clean-testable t f)
      (clean-harnesses t fs)

cons_one :
    (b : Bool) (x y : Text) (xs ys : List Text)
    → length (if b then x ∷ xs else xs) + length (if b then ys else y ∷ ys)
      ≡ 1 + (length xs + length ys)
cons_one true x y xs ys = omega arith
cons_one false x y xs ys = omega arith

one_more : {n m : ℕ} → n ≡ m → 1 + n ≡ suc m
one_more e = omega arith

length-totals :
    (t : Tree) (fs : List Function)
    → length (testable_harnesses t fs) + length (untestable t fs) ≡ length fs
unfolding testable_harnesses untestable
length-totals t [] = refl
length-totals t (f ∷ fs) =
    cons_one (is_testable t f) (filename f.fun_name infun) f.fun_name (testable_harnesses t fs)
      (untestable t fs)
    ∙ one_more (length-totals t fs)

-- The branches after the loop.
result_lem :
    (hs us : List Text) (n : ℕ)
    → length hs + length us ≡ n
    → result n (add_counts no_counts hs us) ≡ (if is_empty hs then stopped else harnesses hs)
result_lem [] us n e = ground arith
result_lem (h ∷ hs) us n e = ground arith

pub pkg_create_lem :
    (functions : List Function) (t : Tree)
    → AreDistinct functions
    → (pkg_create functions t).0 ≡ (
        if is_empty (testable_harnesses t functions)
        then stopped
        else harnesses (testable_harnesses t functions))
unfolding pkg_create totals
pkg_create_lem functions t distinct =
    let u : Tree = clean t in
    ap (λ c. result (length functions) c) (create_all-totals functions no_counts u distinct)
    ∙ (result_lem (testable_harnesses u functions) (untestable u functions) (length functions)
          (length-totals u functions)
        ∙ ap (λ hs. if is_empty hs then stopped else harnesses hs) (clean-harnesses t functions))

All-middle :
    (P : Function → Type 0) (before : List Function) (f : Function) (after : List Function)
    → All P (before ++ (f ∷ after))
    → P f
All-middle P [] f after h = h.0
All-middle P (g ∷ before) f after h = All-middle P before f after h.1

pub turn :
    (n : Text) (fs : List Function) → All (λ g. n ≢ g.fun_name) fs → All (λ g. g.fun_name ≢ n) fs
turn n [] h = tt
turn n (g ∷ fs) h = (λ e. h.0 (sym e), turn n fs h.1)

not_none : (o : Option Text) (s : Text) → o ≡ some s → o ≢ none
not_none o s p q = cc

create_all-IsReady :
    (before : List Function) (f : Function) (after : List Function) (c : Counts) (t : Tree)
    → AreDistinct (before ++ (f ∷ after))
    → is_testable t f ≡ true
    → IsReady f.fun_name infun ((create_all (before ++ (f ∷ after)) c t).1 f.fun_name)
unfolding create_all
create_all-IsReady [] f after c t distinct ok =
    let r : Option Text × Folder = create_in f infun (t f.fun_name) in
    let kept =
      create_all-other f.fun_name after (count f r.0 c) (put f.fun_name r.1 t)
        (turn f.fun_name after distinct.0) in
    let made : r.0 ≡ some (filename f.fun_name infun) =
      create_in_lem f t ∙ if_of_true (is_testable t f) _ none ok in
    subst (λ d. IsReady f.fun_name infun d) (sym (kept ∙ put-same f.fun_name r.1 t))
      (created-IsReady f (t f.fun_name) (not_none r.0 (filename f.fun_name infun) made))
create_all-IsReady (g ∷ before) f after c t distinct ok =
    let r : Option Text × Folder = create_in g infun (t g.fun_name) in
    let other =
      put-other g.fun_name f.fun_name r.1 t
        (All-middle (λ h. g.fun_name ≢ h.fun_name) before f after distinct.0) in
    create_all-IsReady before f after (count g r.0 c) (put g.fun_name r.1 t) distinct.1 (
      ap (λ d. is_in (filename f.fun_name infun) d || is_empty (unsupported_datatypes f.arguments))
        other
      ∙ ok)

-- After deepstate_pkg_create on functions of different names, deepstate_compile_fun does not stop
-- for a function that had a harness or has only allowed datatypes: the old objects are removed
-- and `make` runs.
pub compile_fun-pkg_create :
    (m : Make) (before : List Function) (f : Function) (after : List Function) (t : Tree)
    → AreDistinct (before ++ (f ∷ after))
    → is_testable t f ≡ true
    → compile_fun m f.fun_name infun ((pkg_create (before ++ (f ∷ after)) t).1 f.fun_name)
      ≡ some (
          make m f.fun_name infun
            (remove_objects ((pkg_create (before ++ (f ∷ after)) t).1 f.fun_name)))
unfolding pkg_create
compile_fun-pkg_create m before f after t distinct ok =
    compile_ready m f.fun_name infun _
      (create_all-IsReady before f after no_counts (clean t) distinct (clean-testable t f ∙ ok))
