-- ===== src/Frontend/Package/Loop.antt =====
-- What the loop over the functions of a package counts, and the folders that it leaves.
use mathlib.Core.List.{append_assoc, append-nil}
use rcpp_deep_state.Base.{
  ◌+◌, ◌≡◌, ◌≢◌, refl, ap, ap₂, sym, ◌∙◌, Bool, true, false, ◌||◌, Option, none, some, List, [],
  ◌∷◌, ◌++◌, All, length, str_eq, str_eq_refl, str_eq_of_ne, is_in, if◌then◌else◌, if_of_true,
  if_of_false, arith,
}
use rcpp_deep_state.Frontend.Types.{Text, unsupported_datatypes}
use rcpp_deep_state.Frontend.Harness.{infun, Function, filename}
use rcpp_deep_state.Frontend.Folder.{Folder, is_empty, create_in}
use rcpp_deep_state.Frontend.Package.{Tree, put, Counts, count, create_all}

-- A function has a harness, or can have one.
abbrev pub is_testable : Tree → Function → Bool
is_testable t f =
    is_in (filename f.fun_name infun) (t f.fun_name) || is_empty (unsupported_datatypes f.arguments)

-- The names of the harnesses of the testable functions, and those of the others.
unfoldable pub testable_harnesses : Tree → List Function → List Text
testable_harnesses t [] = []
testable_harnesses t (f ∷ fs) =
    let rest = testable_harnesses t fs in
    if is_testable t f then filename f.fun_name infun ∷ rest else rest

unfoldable pub untestable : Tree → List Function → List Text
untestable t [] = []
untestable t (f ∷ fs) =
    let rest = untestable t fs in if is_testable t f then rest else f.fun_name ∷ rest

-- No two functions of the package have the same name.
abbrev pub AreDistinct : List Function → Type 0
AreDistinct [] = Unit
AreDistinct (f ∷ fs) = All (λ g. f.fun_name ≢ g.fun_name) fs × AreDistinct fs

pub put-same : (n : Text) (d : Folder) (t : Tree) → put n d t n ≡ d
unfolding put
put-same n d t = if_of_true (str_eq n n) d (t n) (str_eq_refl n)

pub put-other : (n k : Text) (d : Folder) (t : Tree) → n ≢ k → put n d t k ≡ t k
unfolding put
put-other n k d t h = if_of_false (str_eq n k) d (t k) (str_eq_of_ne n k h)

-- The result of deepstate_fun_create.
pub create_in_lem :
    (f : Function) (t : Tree)
    → (create_in f infun (t f.fun_name)).0
      ≡ (if is_testable t f then some (filename f.fun_name infun) else none)
unfolding create_in
create_in_lem f t = ground arith

pub same_testable :
    (t u : Tree) (fs : List Function)
    → All (λ f. t f.fun_name ≡ u f.fun_name) fs
    → testable_harnesses t fs ≡ testable_harnesses u fs
unfolding testable_harnesses
same_testable t u [] h = refl
same_testable t u (f ∷ fs) h =
    ap₂ (λ b rest. if b then filename f.fun_name infun ∷ rest else rest)
      (ap (λ d. is_in (filename f.fun_name infun) d || is_empty (unsupported_datatypes f.arguments))
        h.0)
      (same_testable t u fs h.1)

pub same_untestable :
    (t u : Tree) (fs : List Function)
    → All (λ f. t f.fun_name ≡ u f.fun_name) fs
    → untestable t fs ≡ untestable u fs
unfolding untestable
same_untestable t u [] h = refl
same_untestable t u (f ∷ fs) h =
    ap₂ (λ b rest. if b then rest else f.fun_name ∷ rest)
      (ap (λ d. is_in (filename f.fun_name infun) d || is_empty (unsupported_datatypes f.arguments))
        h.0)
      (same_untestable t u fs h.1)

-- The counts with the names of testable functions, and of others, added.
abbrev pub add_counts : Counts → List Text → List Text → Counts
add_counts c hs us = record {
  match_count = c.match_count + length hs;
  mismatch_count = c.mismatch_count + length us;
  harness = c.harness ++ hs;
  failed_harness = c.failed_harness ++ us;
}

unfoldable pub totals : Tree → List Function → Counts → Counts
totals t fs c = add_counts c (testable_harnesses t fs) (untestable t fs)

counts_ext :
    {c d : Counts}
    → c.match_count ≡ d.match_count
    → c.mismatch_count ≡ d.mismatch_count
    → c.harness ≡ d.harness
    → c.failed_harness ≡ d.failed_harness
    → c ≡ d
counts_ext p q r s i = record {
  match_count = p i;
  mismatch_count = q i;
  harness = r i;
  failed_harness = s i;
}

totals_nil : (t : Tree) (c : Counts) → c ≡ totals t [] c
unfolding totals testable_harnesses untestable
totals_nil t c =
    counts_ext (omega arith) (omega arith) (sym (append-nil c.harness))
      (sym (append-nil c.failed_harness))

count_step :
    (b : Bool) (f : Function) (hs us : List Text) (c : Counts)
    → add_counts (count f (if b then some (filename f.fun_name infun) else none) c) hs us
      ≡ add_counts c
          (if b then filename f.fun_name infun ∷ hs else hs)
          (if b then us else f.fun_name ∷ us)
count_step true f hs us c =
    ap (λ (d : Counts). add_counts d hs us)
      (if_of_true (str_eq (filename f.fun_name infun) (filename f.fun_name infun)) _ _
        (str_eq_refl (filename f.fun_name infun)))
    ∙ counts_ext (omega arith) refl (append_assoc c.harness (filename f.fun_name infun ∷ []) hs)
        refl
count_step false f hs us c =
    counts_ext refl (omega arith) refl (append_assoc c.failed_harness (f.fun_name ∷ []) us)

totals_step :
    (t : Tree) (f : Function) (fs : List Function) (c : Counts)
    → totals t fs (count f (if is_testable t f then some (filename f.fun_name infun) else none) c)
      ≡ totals t (f ∷ fs) c
unfolding totals testable_harnesses untestable
totals_step t f fs c = count_step (is_testable t f) f (testable_harnesses t fs) (untestable t fs) c

-- Storing a folder changes none of another function.
put_others :
    (f : Function) (d : Folder) (t : Tree) (fs : List Function)
    → All (λ g. f.fun_name ≢ g.fun_name) fs
    → All (λ g. put f.fun_name d t g.fun_name ≡ t g.fun_name) fs
put_others f d t [] h = tt
put_others f d t (g ∷ fs) h = (put-other f.fun_name g.fun_name d t h.0, put_others f d t fs h.1)

totals-put :
    (f : Function) (d : Folder) (t : Tree) (fs : List Function) (c : Counts)
    → All (λ g. f.fun_name ≢ g.fun_name) fs
    → totals (put f.fun_name d t) fs c ≡ totals t fs c
unfolding totals
totals-put f d t fs c h =
    let same = put_others f d t fs h in
    ap₂ (λ hs us. add_counts c hs us) (same_testable (put f.fun_name d t) t fs same)
      (same_untestable (put f.fun_name d t) t fs same)

pub create_all-totals :
    (fs : List Function) (c : Counts) (t : Tree)
    → AreDistinct fs
    → (create_all fs c t).0 ≡ totals t fs c
unfolding create_all
create_all-totals [] c t h = totals_nil t c
create_all-totals (f ∷ fs) c t h =
    let r : Option Text × Folder = create_in f infun (t f.fun_name) in
    create_all-totals fs (count f r.0 c) (put f.fun_name r.1 t) h.1
    ∙ (totals-put f r.1 t fs (count f r.0 c) h.0
        ∙ (ap (λ o. totals t fs (count f o c)) (create_in_lem f t) ∙ totals_step t f fs c))

-- The folder of a function that is not in the list stays.
pub create_all-other :
    (k : Text) (fs : List Function) (c : Counts) (t : Tree)
    → All (λ g. g.fun_name ≢ k) fs
    → (create_all fs c t).1 k ≡ t k
unfolding create_all
create_all-other k [] c t h = refl
create_all-other k (f ∷ fs) c t h =
    let r : Option Text × Folder = create_in f infun (t f.fun_name) in
    create_all-other k fs (count f r.0 c) (put f.fun_name r.1 t) h.1
    ∙ put-other f.fun_name k r.1 t h.0
