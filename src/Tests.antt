-- ===== src/Tests.antt =====
-- Runs of the model on small tapes, and each result of the library at concrete input.
mod Faults
mod Ranges
mod Generators
mod Sample
mod Harness
mod Saved
mod Frontend
mod Package
mod Makefile
mod ValgrindLog
mod Exports
mod SavedInputs
mod PackageDetails
mod FileNames
mod Workflow
mod Defects
