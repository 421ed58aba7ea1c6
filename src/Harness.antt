-- ===== src/Harness.antt =====
-- The driver of a test harness: the static functions of inst/include/DeepState.h that run the
-- registered tests on saved inputs or on their own, over a `Host`.
pub mod Types
pub mod Files
pub mod RunTest
pub mod Saved
pub mod Main
