-- ===== src/Frontend/Description/Laws.antt =====
-- The name of a package is read back.
use rcpp_deep_state.Base.{
  ◌≡◌, refl, ap, ◌∙◌, false, some, List, [], ◌∷◌, ◌++◌, All, codes, starts_with, has_substring,
  gsub, gsub_from, gsub_absent, if_of_false,
}
use rcpp_deep_state.Frontend.Types.{Text}
use rcpp_deep_state.Frontend.Description.{package_name_line, name_in, get_package_name}

skip_lines :
    (before rest : List Text)
    → All (λ l. starts_with l (codes "Package:") ≡ false) before
    → package_name_line (before ++ rest) ≡ package_name_line rest
unfolding package_name_line
skip_lines [] rest h = refl
skip_lines (l ∷ before) rest h =
    if_of_false (starts_with l (codes "Package:")) (l ∷ package_name_line (before ++ rest))
      (package_name_line (before ++ rest)) h.0
    ∙ skip_lines before rest h.1

gsub_prefix :
    (name : Text)
    → has_substring name (codes "Package: ") ≡ false
    → gsub (codes "Package: ") (codes "Package: " ++ name) ≡ name
unfolding gsub gsub_from
gsub_prefix name h = gsub_absent (codes "Package: ") name h

-- get_package_name gives the name that follows `Package: ` in the first line that begins with
-- `Package:`, if the name does not contain that text.
pub get_package_name_lem :
    (before after : List Text) (name : Text)
    → All (λ l. starts_with l (codes "Package:") ≡ false) before
    → has_substring name (codes "Package: ") ≡ false
    → get_package_name (some (before ++ ((codes "Package: " ++ name) ∷ after))) ≡ some name
unfolding get_package_name package_name_line
get_package_name_lem before after name none_before h =
    ap name_in (skip_lines before ((codes "Package: " ++ name) ∷ after) none_before)
    ∙ ap (λ (s : Text). some s) (gsub_prefix name h)
