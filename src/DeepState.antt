-- ===== src/DeepState.antt =====
-- The headers of DeepState that are compiled into every test harness (inst/include/DeepState.h and
-- inst/include/DeepState.hpp), over the functions that they only declare (DeepState.Runtime).
pub mod Runtime
pub mod Range
pub mod Choice
pub mod Supply
