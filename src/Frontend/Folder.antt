-- ===== src/Frontend/Folder.antt =====
-- The folder of a function under inst/testfiles, as the names of its files: what deepstate_fun_create
-- writes there (R/fun_harness_create.R, R/fun_makefile_create.R), the two harnesses that a user edits
-- (R/editable_fun.R), and compiling (R/fun_harness_compile.R). The shared library of the package has
-- been built: deepstate_create_makefile stops before it writes otherwise.
pub mod Laws
pub mod Names
pub mod Ready
pub mod Editable
use rcpp_deep_state.Base.{
  ℕ, Bool, true, false, not, ◌||◌, ◌&&◌, Option, none, some, List, [], ◌∷◌, ◌++◌, codes, str_eq,
  is_in, if◌then◌else◌,
}
use rcpp_deep_state.Frontend.Types.{Text, unsupported_datatypes}
use rcpp_deep_state.Frontend.Harness.{
  Sep, infun, generation, checks, Function, suffix, test_harness, filename,
}

abbrev pub Folder : Type 0
Folder = List Text

-- `file.create` and `dir.create`, which keep what is there.
unfoldable pub add : Text → Folder → Folder
add name d = if is_in name d then d else name ∷ d

-- `unlink`.
unfoldable pub remove : Text → Folder → Folder
remove name [] = []
remove name (n ∷ d) = let rest = remove name d in if str_eq name n then rest else n ∷ rest

abbrev pub output_dir : Text → Sep → Text
output_dir fun_name sep = fun_name ++ codes "_output" ++ suffix sep

-- The end of deepstate_create_makefile.
unfoldable pub create_makefile : Text → Folder → Folder
create_makefile fun_name d =
    add (codes "Makefile") (add (codes "inputs") (add (output_dir fun_name infun) d))

-- `makesep.path`, and the makefile that deepstate_compile_fun reads.
abbrev pub makefile_name : Sep → Text
makefile_name infun = codes "Makefile"
makefile_name generation = codes "generation.Makefile"
makefile_name checks = codes "checks.Makefile"

-- For a generation or a checks harness; `makefile_lines` come from Makefile, which is then unlinked.
abbrev pub add_editable : Text → Sep → Folder → Folder
add_editable fun_name sep d =
    let d₁ : Folder = add (filename fun_name sep) d in
    let d₂ : Folder =
      if is_in (codes "Makefile") d₁
      then add (makefile_name sep) d₁
      else create_makefile fun_name d₁ in
    add (output_dir fun_name sep) (remove (codes "Makefile") (add (makefile_name sep) d₂))

-- The files that come with a new harness.
unfoldable pub write_harness : Text → Sep → Folder → Folder
unfolding create_makefile
write_harness fun_name infun d =
    add (codes "inputs") (create_makefile fun_name (add (filename fun_name infun) d))
write_harness fun_name generation d = add (codes "inputs") (add_editable fun_name generation d)
write_harness fun_name checks d = add (codes "inputs") (add_editable fun_name checks d)

abbrev pub is_empty : List Text → Bool
is_empty [] = true
is_empty (t ∷ ts) = false

-- `deepstate_fun_create` on the folder: the name of the harness or NA, and what is then there.
unfoldable pub create_in : Function → Sep → Folder → Option Text × Folder
unfolding create_makefile write_harness
create_in f sep d =
    if is_in (filename f.fun_name sep) d
    then (some (filename f.fun_name sep), create_makefile f.fun_name d)
    else if is_empty (unsupported_datatypes f.arguments)
    then (some (filename f.fun_name sep), write_harness f.fun_name sep d)
    else (none, d)

-- `deepstate_editable_fun`.
unfoldable pub editable_fun : Function → Folder → (Option Text × Option Text) × Folder
unfolding create_in
editable_fun f d =
    let (gen, d₁) = create_in f generation d in
    let (chk, d₂) = create_in f checks d₁ in ((gen, chk), d₂)

-- A name that ends in `.o`.
abbrev pub is_object : Text → Bool
is_object [] = false
is_object (c ∷ s) = str_eq (c ∷ s) (codes ".o") || is_object s

-- `rm -f *.o`.
unfoldable pub remove_objects : Folder → Folder
remove_objects [] = []
remove_objects (n ∷ d) = let rest = remove_objects d in if is_object n then rest else n ∷ rest

abbrev pub object : Text → Sep → Text
object fun_name sep = test_harness fun_name sep ++ codes ".o"

-- How far `make` gets: the compiler and the linker are not part of the repository.
pub data Make : Type 0 where
  fails compiles links : Make

abbrev pub make : Make → Text → Sep → Folder → Folder
make fails fun_name sep d = d
make compiles fun_name sep d = add (object fun_name sep) d
make links fun_name sep d = add (test_harness fun_name sep) (add (object fun_name sep) d)

-- `deepstate_compile_fun`; it stops (`none`) without the harness and its makefile.
unfoldable pub compile_fun : Make → Text → Sep → Folder → Option Folder
compile_fun m fun_name sep d =
    if is_in (filename fun_name sep) d && is_in (makefile_name sep) d
    then some (make m fun_name sep (remove_objects d))
    else none
