-- ===== src/Frontend/Package.antt =====
-- The harnesses of a whole package (R/pkg_harness_create.R): the folders under inst/testfiles, by the
-- names of the functions. A folder that does not exist has no files.
pub mod Loop
pub mod Laws
pub mod Again
use rcpp_deep_state.Base.{
  ℕ, ◌+◌, ltb, ◌==◌, Bool, true, false, not, ◌&&◌, Option, none, some, List, [], ◌∷◌, ◌++◌, length,
  str_eq, is_in, if◌then◌else◌,
}
use rcpp_deep_state.Frontend.Types.{Text}
use rcpp_deep_state.Frontend.Harness.{infun, Function, filename}
use rcpp_deep_state.Frontend.Folder.{Folder, create_in}

abbrev pub Tree : Type 0
Tree = Text → Folder

unfoldable pub put : Text → Folder → Tree → Tree
put name d t k = if str_eq name k then d else t k

-- Only the harness of a function stays, where there is one.
unfoldable pub clean_folder : Text → Folder → Folder
clean_folder name d = if is_in (filename name infun) d then filename name infun ∷ [] else d

unfoldable pub clean : Tree → Tree
unfolding clean_folder
clean t name = clean_folder name (t name)

-- The variables of the loop.
pub record Counts : Type 0 where
  pub match_count : ℕ
  pub mismatch_count : ℕ
  pub harness : List Text
  pub failed_harness : List Text

abbrev pub no_counts : Counts
no_counts = record { match_count = 0; mismatch_count = 0; harness = []; failed_harness = [] }

-- `!is.na(filepath) && basename(filepath) == filename`; these names hold no slash.
abbrev pub matches : Option Text → Text → Bool
matches none name = false
matches (some path) name = str_eq path name

abbrev pub count : Function → Option Text → Counts → Counts
count f filepath c =
    if matches filepath (filename f.fun_name infun)
    then record c {
      match_count = c.match_count + 1;
      harness = c.harness ++ (filename f.fun_name infun ∷ []);
    }
    else record c {
      mismatch_count = c.mismatch_count + 1;
      failed_harness = c.failed_harness ++ (f.fun_name ∷ []);
    }

unfoldable pub create_all : List Function → Counts → Tree → Counts × Tree
unfolding create_in put
create_all [] c t = (c, t)
create_all (f ∷ fs) c t =
    let r : Option Text × Folder = create_in f infun (t f.fun_name) in
    create_all fs (count f r.0 c) (put f.fun_name r.1 t)

-- What is returned: the names of the harnesses, an error, or nothing after the last branch.
pub data Created : Type 0 where
  harnesses : List Text → Created
  stopped nothing : Created

abbrev pub result : ℕ → Counts → Created
result n c =
    if ltb 0 c.match_count && c.match_count == n
    then harnesses c.harness
    else if ltb c.mismatch_count n && (ltb 0 (length c.failed_harness) && not (c.match_count == 0))
    then harnesses c.harness
    else if c.mismatch_count == n
    then stopped
    else nothing

unfoldable pub pkg_create : List Function → Tree → Created × Tree
unfolding create_all clean
pkg_create functions t =
    let (c, after) = create_all functions no_counts (clean t) in
    (result (length functions) c, after)
