-- ===== src/Frontend.antt =====
-- The R code of the package: it writes a test harness for each exported function of another package
-- (R/fun_harness_create.R and R/pkg_harness_create.R), runs it (R/fun_harness_fuzz.R) and reads what
-- was found (R/analyze_binary_one.R). Texts are lists of character codes.
pub mod Types
pub mod Harness
pub mod Draw
pub mod TestNames
pub mod Folder
pub mod Package
pub mod Fuzz
pub mod Analyze
pub mod Description
pub mod FuzzAnalyze
pub mod Ranges
pub mod Makefile
pub mod ValgrindLog
pub mod Exports
pub mod SavedInputs
pub mod PackageDetails
pub mod FileNames
pub mod Workflow
