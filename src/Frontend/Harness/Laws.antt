-- ===== src/Frontend/Harness/Laws.antt =====
-- The names of the tests of a harness.
use rcpp_deep_state.Base.{
  ◌≡◌, ap, sym, ◌∙◌, ◌↔◌, false, contains, codes, gsub_absent, contains-gsub,
  has_substring-contains,
}
use rcpp_deep_state.Frontend.Types.{Text}
use rcpp_deep_state.Frontend.Harness.{unittest}

-- The name of a package is that of its tests exactly if it has no dots.
pub unittest_iff :
    (packagename : Text)
    → (unittest packagename ≡ packagename) ↔ (contains packagename b'.' ≡ false)
unfolding unittest
unittest_iff packagename = (
  λ e. ap (λ s. contains s b'.') (sym e) ∙ contains-gsub b'.' packagename,
  λ h. gsub_absent (codes ".") packagename (has_substring-contains packagename b'.' ∙ h),
)
