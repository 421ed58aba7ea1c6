-- ===== src/Frontend/Description.antt =====
-- The name of a package in its DESCRIPTION file (R/package_details.R).
pub mod Laws
use rcpp_deep_state.Base.{
  Bool, true, false, Option, none, some, List, [], ◌∷◌, ◌++◌, codes, starts_with, gsub,
  if◌then◌else◌,
}
use rcpp_deep_state.Frontend.Types.{Text}

-- `description_lines[grepl("^Package:", description_lines)]`.
unfoldable pub package_name_line : List Text → List Text
package_name_line [] = []
package_name_line (l ∷ ls) =
    let rest = package_name_line ls in if starts_with l (codes "Package:") then l ∷ rest else rest

-- The name in the first such line; without one the result is NA.
abbrev pub name_in : List Text → Option Text
name_in [] = none
name_in (l ∷ ls) = some (gsub (codes "Package: ") l)

-- The lines of the file; without the file the result is NA.
unfoldable pub get_package_name : Option (List Text) → Option Text
unfolding package_name_line gsub
get_package_name none = none
get_package_name (some description_lines) = name_in (package_name_line description_lines)
