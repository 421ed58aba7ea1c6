-- ===== src/Generator.antt =====
-- The generators of inst/include/RcppDeepState.h: a value of each type that a test harness can pass
-- to the function under test, drawn from a `Source`.
pub mod Scalars
pub mod Vectors
pub mod Matrices
pub mod Texts
