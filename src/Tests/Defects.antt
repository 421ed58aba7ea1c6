-- ===== src/Tests/Defects.antt =====
-- The functions of the test package on an empty heap.
use rcpp_deep_state.Base.{◌≡◌, refl, ◌↔◌, true, pos, negsuc, IsBetween, [], arith}
use rcpp_deep_state.TestSan.Blocks.{Machine, Heap, returned}
use rcpp_deep_state.TestSan.{write_index_outofbound}
use rcpp_deep_state.TestSan.Write.{write_index_outofbound_iff}

abbrev plenty : Machine
plenty = record { has_memory = λ n. true }

write_index_outofbound_iff_example :
    ((h' : Heap) × (write_index_outofbound plenty (negsuc 0) [] ≡ returned (pos 0) h'))
    ↔ IsBetween (negsuc 99) (negsuc 0) (negsuc 0)
write_index_outofbound_iff_example =
    write_index_outofbound_iff plenty [] (negsuc 0) refl (omega arith, omega arith)
