-- ===== src/Tests/Ranges.antt =====
-- The results on inst/include/DeepState.h and inst/include/DeepState.hpp at concrete input.
use rcpp_deep_state.Base.{
  ℕ, suc, ◌≡◌, refl, pure, false, true, arith, pos, negsuc, IsWithin, [], ◌∷◌, Good, CutIf,
}
use rcpp_deep_state.Tape.{tape}
use rcpp_deep_state.DeepState.Runtime.{char}
use rcpp_deep_state.DeepState.Range.{signed_in_range}
use rcpp_deep_state.DeepState.Range.Bounds.{signed_in_range-IsWithin}
use rcpp_deep_state.DeepState.Choice.{pump}
use rcpp_deep_state.DeepState.Choice.Laws.{IsReturn, minimum, minimized, pump_lem}

-- At the widest range whose size wraps, and at the value whose negative wraps.
signed_in_range-IsWithin_example :
    Good
      (CutIf false)
      (IsWithin (negsuc 127) (pos 9))
      (signed_in_range (tape false) char (negsuc 127) (pos 9) (pos 120 ∷ []))
signed_in_range-IsWithin_example =
    signed_in_range-IsWithin (tape false) char (negsuc 127) (pos 9) (omega arith) (omega arith)
      (pos 120 ∷ [])

-- A symbolic value goes through the loop, and 5 is above the minimum each time.
pump_lem_example :
    (k : ℕ) × IsReturn (tape true) 5 3 [] k
    × (pump (tape true) 5 3 []
        ≡ pure (minimum (tape true) 5 k []) (minimized (tape true) 5 (suc k) []))
pump_lem_example = pump_lem (tape true) 5 3 [] refl (omega arith)
