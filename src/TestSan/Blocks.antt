-- ===== src/TestSan/Blocks.antt =====
-- Heap memory: blocks that are live or freed, with elements that hold a value or none yet.
use rcpp_deep_state.Base.{
  ℕ, suc, ◌*◌, ◌^◌, Bool, true, false, ℤ, pos, negsuc, ◌+ℤ◌, ltb_ℤ, Option, none, some, List, [],
  ◌∷◌, ◌++◌, length, get_elem?, set, leb, ◌==◌, ◌||◌, ◌-◌, ◌%◌, if◌then◌else◌,
}

-- What goes wrong: an exception of `new`, or undefined behaviour.
pub data Fault : Type 0 where
  bad_array_new_length bad_alloc : Fault
  invalid_read invalid_write access_after_free null_access double_free uninitialized overflow :
      Fault

pub record Block : Type 0 where
  pub live : Bool
  pub bytes : ℕ
  pub elements : ℕ → Option ℤ

-- A pointer is the number of a block, or null.
abbrev pub Heap : Type 0
Heap = List Block

abbrev pub Pointer : Type 0
Pointer = Option ℕ

pub data Run (A : Type 0) : Type 0 where
  returned : A → Heap → Run A
  faulty : Fault → Run A

abbrev pub Memory : Type 0 → Type 0
Memory A = Heap → Run A

-- The allocator: whether it finds that many bytes.
pub record Machine : Type 0 where
  pub has_memory : ℕ → Bool

module _ {A : Type 0} where
  abbrev pub pure : A → Memory A
  pure a h = returned a h

  abbrev pub raise : Fault → Memory A
  raise e h = faulty e

abbrev pub and_then : {A B : Type 0} → Run A → (A → Memory B) → Run B
and_then (returned a h) f = f a h
and_then (faulty e) f = faulty e

infixl 5 ◌>>=◌ ◌>>◌
abbrev pub ◌>>=◌ : {A B : Type 0} → Memory A → (A → Memory B) → Memory B
◌>>=◌ m f h = and_then (m h) f

abbrev pub ◌>>◌ : {A B : Type 0} → Memory A → Memory B → Memory B
m >> k = m >>= λ _. k

-- A new block, of elements without a value.
abbrev pub add_block : ℕ → Memory Pointer
add_block n h =
    returned (some (length h)) (h ++ (record { live = true; bytes = n; elements = λ i. none } ∷ []))

-- `new T[n]`, with elements of `width` bytes.
unfoldable pub new_array : Machine → ℕ → ℤ → Memory Pointer
new_array machine width (negsuc n) = raise bad_array_new_length
new_array machine width (pos n) =
    if machine.has_memory (n * width) then add_block (n * width) else raise bad_alloc

unfoldable pub malloc : Machine → ℕ → Memory Pointer
malloc machine n = if machine.has_memory n then add_block n else pure none

-- What is done with a block that is there.
abbrev pub with_found : {A : Type 0} → Option Block → (Block → Memory A) → Memory A
with_found none f h = faulty null_access
with_found (some b) f h = f b h

abbrev pub with_block : {A : Type 0} → Pointer → (ℕ → Block → Memory A) → Memory A
with_block none f h = faulty null_access
with_block (some p) f h = with_found (get_elem? h p) (f p) h

abbrev pub release : ℕ → Block → Memory (Unit {0})
release p b h =
    if b.live then returned tt (set h p (record b { live = false })) else faulty double_free

-- Nothing happens at a null pointer.
unfoldable pub free : Pointer → Memory (Unit {0})
free none = pure tt
free (some p) = with_block (some p) release

unfoldable pub delete_array : Pointer → Memory (Unit {0})
unfolding free
delete_array p = free p

-- Whether element `i` lies inside the block.
abbrev pub is_inside : ℕ → Block → ℤ → Bool
is_inside width b (negsuc n) = false
is_inside width b (pos i) = leb (suc i * width) b.bytes

abbrev pub offset : ℤ → ℕ
offset (pos i) = i
offset (negsuc n) = 0

abbrev pub value : Option ℤ → Memory ℤ
value none = raise uninitialized
value (some v) = pure v

-- `p[i]`, read and written, where `p` points to the block.
abbrev pub read_block : ℕ → ℤ → Block → Memory ℤ
read_block width i b h =
    if b.live
    then (if is_inside width b i then value (b.elements (offset i)) h else faulty invalid_read)
    else faulty access_after_free

abbrev pub put : ℤ → ℤ → Block → Block
put i v b = record b { elements = λ j. if j == offset i then some v else b.elements j }

abbrev pub write_block : ℕ → ℤ → ℤ → ℕ → Block → Memory (Unit {0})
write_block width i v p b h =
    if b.live
    then (if is_inside width b i then returned tt (set h p (put i v b)) else faulty invalid_write)
    else faulty access_after_free

unfoldable pub read : ℕ → Pointer → ℤ → Memory ℤ
read width p i = with_block p λ _. read_block width i

unfoldable pub write : ℕ → Pointer → ℤ → ℤ → Memory (Unit {0})
write width p i v = with_block p (write_block width i v)

-- A local variable, which may have no value yet.
unfoldable pub read_local : Option ℤ → Memory ℤ
read_local x = value x

-- The addition of two `int`s.
unfoldable pub add_int : ℤ → ℤ → Memory ℤ
add_int x y =
    if ltb_ℤ (x +ℤ y) (negsuc (2 ^ 31 - 1)) || ltb_ℤ (pos (2 ^ 31 - 1)) (x +ℤ y)
    then raise overflow
    else pure (x +ℤ y)

-- The conversion of an `int` to `size_t`.
abbrev pub to_size : ℤ → ℕ
to_size (pos n) = n % 2 ^ 64
to_size (negsuc n) = 2 ^ 64 - 1 - n % 2 ^ 64
