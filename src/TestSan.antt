-- ===== src/TestSan.antt =====
-- The functions of the test package (inst/testpkgs/testSAN/src), over a memory of heap blocks. Each
-- is written so that a checker finds a memory error in it.
pub mod Blocks
pub mod Laws
pub mod Write
use rcpp_deep_state.Base.{
  ℕ, ◌*◌, ◌^◌, ◌%◌, ℤ, pos, ◌+ℤ◌, ltb_ℤ, wrap, List, length, Option, none, some, if◌then◌else◌,
}
use rcpp_deep_state.TestSan.Blocks.{
  Machine, Memory, pure, ◌>>=◌, ◌>>◌, new_array, delete_array, malloc, free, read, write,
  read_local, add_int, to_size,
}

module _ (machine : Machine) where
  -- The elements of a `char` array are 1 byte wide, those of an `int` array 4.
  unfoldable pub use_after_deallocate : ℤ → Memory ℤ
  use_after_deallocate array_size = do
    x ← new_array machine 1 array_size
    _ ← delete_array x
    read 1 x (pos 5)

  unfoldable pub read_out_of_bound : ℤ → Memory ℤ
  read_out_of_bound rbound = do
    stack_array ← new_array machine 4 (pos 100)
    read 4 stack_array rbound

  unfoldable pub zero_sized_array : ℤ → Memory ℤ
  zero_sized_array value = do
    ptr ← new_array machine 4 (pos 0)
    _ ← write 4 ptr (pos 0) value
    read 4 ptr (pos 0)

  -- `sizeof(int)*alloc_size` is a `size_t`.
  unfoldable pub use_after_free : ℤ → Memory ℤ
  use_after_free alloc_size = do
    x ← malloc machine ((4 * to_size alloc_size) % 2 ^ 64)
    _ ← free x
    read 4 x (pos 10)

  unfoldable pub write_index_outofbound : ℤ → Memory ℤ
  write_index_outofbound wbound = do
    stack_array ← new_array machine 4 (pos 100)
    i ← add_int wbound (pos 100)
    _ ← write 4 stack_array i (pos 50)
    pure (pos 0)

-- `x` is declared without a value.
unfoldable pub use_uninitialized : ℤ → Memory ℤ
use_uninitialized u_value = do
  x ← read_local none
  if ltb_ℤ x u_value then pure u_value else add_int x u_value

-- `size()` of a logical vector, returned as an `int`.
unfoldable pub unsupported_datatype : List ℤ → Memory ℤ
unsupported_datatype param = pure (wrap (2 ^ 31) (pos (length param)))
