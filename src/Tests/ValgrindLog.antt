-- ===== src/Tests/ValgrindLog.antt =====
-- The results on the log of valgrind at concrete input.
use rcpp_deep_state.Base.{◌≡◌, refl, false, none, some, List, [], ◌∷◌, codes, inl}
use rcpp_deep_state.Frontend.Types.{Text}
use rcpp_deep_state.Frontend.ValgrindLog.{
  Frame, Error, SrcDir, dir_is, file_in_src, Row, src_dir_xpath, stack_trace, stack_nodes,
  error_rows, get_kind, get_what, get_xwhat, message, read_valgrind_xml,
}
use rcpp_deep_state.Frontend.ValgrindLog.Laws.{IsTableOf, read_valgrind_xml-IsTableOf}
use rcpp_deep_state.Frontend.ValgrindLog.Traces.{IsTrace, read_valgrind_xml-IsTrace}
use rcpp_deep_state.Frontend.ValgrindLog.Unique.{IsMember}
use rcpp_deep_state.Frontend.ValgrindLog.Blocks.{
  Block, memcheck_error, reported, rows_at, error_rows-memcheck_error,
}

abbrev library_frame : Frame
library_frame = record {
  dir = some (codes "/lib");
  file = some (codes "malloc.c");
  line = some (codes "1");
}

abbrev frame_at : Text → Frame
frame_at n = record { dir = some (codes "/p/src"); file = some (codes "f.cpp"); line = some n }

-- A read of a freed block, with the stacks of the freeing and of the allocation.
abbrev blocks : List Block
blocks =
    record {
      address = codes "Address 0x1 is 0 bytes inside a block of size 4 free'd";
      trace = library_frame ∷ frame_at (codes "20") ∷ [];
    }
    ∷ record {
      address = codes "Block was alloc'd at";
      trace = library_frame ∷ frame_at (codes "10") ∷ [];
    }
    ∷ []

abbrev pub use_after_free : Error
use_after_free =
    memcheck_error (codes "InvalidRead") (codes "Invalid read of size 4")
      (frame_at (codes "30") ∷ []) blocks

abbrev pub src : SrcDir
src = dir_is (codes "/p/src")

abbrev row_at : Text → Row
row_at file_line = record {
  err_kind = some (codes "InvalidRead");
  message = some (codes "Invalid read of size 4");
  file_line = file_line;
  address_msg = codes "Address 0x1 is 0 bytes inside a block of size 4 free'd";
  address_trace = some (codes "f.cpp : 10");
}

abbrev table : List Row
table = row_at (codes "f.cpp : 30") ∷ row_at (codes "f.cpp : 20") ∷ []

-- The trace of the allocation stands with the message on the freeing, and the freeing is a row.
error_rows-memcheck_error_example :
    error_rows src use_after_free
    ≡ reported src
        (codes "InvalidRead")
        (codes "Invalid read of size 4")
        (frame_at (codes "30") ∷ [])
        blocks
error_rows-memcheck_error_example =
    error_rows-memcheck_error src (codes "InvalidRead") (codes "Invalid read of size 4")
      (frame_at (codes "30") ∷ []) blocks

frees_as_rows :
    reported src
      (codes "InvalidRead")
      (codes "Invalid read of size 4")
      (frame_at (codes "30") ∷ [])
      blocks
    ≡ table
unfolding rows_at stack_trace
frees_as_rows = refl

read_twice : read_valgrind_xml (some src) (use_after_free ∷ use_after_free ∷ []) ≡ some table
unfolding read_valgrind_xml message get_kind get_what get_xwhat
read_twice = refl

read_valgrind_xml-IsTableOf_example :
    IsTableOf src
      (use_after_free ∷ use_after_free ∷ [])
      (read_valgrind_xml (some src) (use_after_free ∷ use_after_free ∷ []))
read_valgrind_xml-IsTableOf_example =
    read_valgrind_xml-IsTableOf src (use_after_free ∷ use_after_free ∷ [])

read_valgrind_xml-IsTrace_example :
    (error : Error) × IsMember error (use_after_free ∷ use_after_free ∷ [])
    × IsTrace src (stack_nodes error) (codes "f.cpp : 30")
read_valgrind_xml-IsTrace_example =
    read_valgrind_xml-IsTrace src (use_after_free ∷ use_after_free ∷ []) table
      (row_at (codes "f.cpp : 30")) read_twice (inl refl)

src_in_lines :
    src_dir_xpath (codes "/p/src") false (codes "  <file>src/f.cpp</file>" ∷ []) ≡ some file_in_src
unfolding src_dir_xpath
src_in_lines = refl

nothing_found : read_valgrind_xml (some file_in_src) (use_after_free ∷ []) ≡ none
unfolding read_valgrind_xml
nothing_found = refl
