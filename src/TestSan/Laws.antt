-- ===== src/TestSan/Laws.antt =====
-- Which inputs make the functions of the test package go wrong, and how.
use rcpp_deep_state.Base.{
  ℕ, ◌*◌, ◌^◌, ◌%◌, ◌≡◌, refl, ap, sym, ◌∙◌, Bool, true, false, ℤ, pos, none, some, [], ◌∷◌, ◌++◌,
  length, get_elem?, set, Bool-cases, inl, inr, if◌then◌else◌, if_of_true, if_of_false,
}
use rcpp_deep_state.TestSan.Blocks.{
  Fault, bad_alloc, invalid_read, invalid_write, access_after_free, null_access, uninitialized,
  Block, Heap, Pointer, Run, returned, faulty, Memory, Machine, ◌>>=◌, with_found, release,
  new_array, delete_array, malloc, free, read, write, to_size, add_block, and_then, raise, pure,
  read_block, write_block, ◌>>◌, is_inside,
}
use rcpp_deep_state.TestSan.{
  use_after_deallocate, read_out_of_bound, zero_sized_array, use_after_free,
}

get_elem?-last : (h : Heap) (b : Block) → get_elem? (h ++ (b ∷ [])) (length h) ≡ some b
get_elem?-last [] b = refl
get_elem?-last (x ∷ h) b = get_elem?-last h b

set-last : (h : Heap) (b b' : Block) → set (h ++ (b ∷ [])) (length h) b' ≡ h ++ (b' ∷ [])
set-last [] b b' = refl
set-last (x ∷ h) b b' = ap (λ r. x ∷ r) (set-last h b b')

-- A freed or a live block.
abbrev pub fresh : Bool → ℕ → Block
fresh live n = record { live = live; bytes = n; elements = λ i. none }

module _ (h : Heap) where
  read-last :
      (width : ℕ) (b : Block) (i : ℤ)
      → read width (some (length h)) i (h ++ (b ∷ [])) ≡ read_block width i b (h ++ (b ∷ []))
  unfolding read
  read-last width b i =
      ap (λ o. with_found o (read_block width i) (h ++ (b ∷ []))) (get_elem?-last h b)

  pub write-last :
      (width : ℕ) (b : Block) (i v : ℤ)
      → write width (some (length h)) i v (h ++ (b ∷ []))
        ≡ write_block width i v (length h) b (h ++ (b ∷ []))
  unfolding write
  write-last width b i v =
      ap (λ o. with_found o (write_block width i v (length h)) (h ++ (b ∷ []))) (get_elem?-last h b)

  free-last :
      (n : ℕ)
      → free (some (length h)) (h ++ (fresh true n ∷ [])) ≡ returned tt (h ++ (fresh false n ∷ []))
  unfolding free
  free-last n =
      ap (λ o. with_found o (release (length h)) (h ++ (fresh true n ∷ [])))
        (get_elem?-last h (fresh true n))
      ∙ ap (λ r. returned tt r) (set-last h (fresh true n) (fresh false n))

pub bind_of_returned :
    {A B : Type 0} (m : Memory A) (f : A → Memory B) (h : Heap) {a : A} {h' : Heap}
    → m h ≡ returned a h'
    → (m >>= f) h ≡ f a h'
bind_of_returned m f h e = ap (λ r. and_then r f) e

-- What a new array of `n` elements is followed by.
pub after_new_array :
    {B : Type 0} (machine : Machine) (width n : ℕ) (f : Pointer → Memory B) (h : Heap) {r : Run B}
    → f (some (length h)) (h ++ (fresh true (n * width) ∷ [])) ≡ r
    → (new_array machine width (pos n) >>= f) h
      ≡ (if machine.has_memory (n * width) then r else faulty bad_alloc)
unfolding new_array
after_new_array machine width n f h e = elim (Bool-cases (machine.has_memory (n * width))) [
  | inl found ↦
      ap (λ m. and_then (m h) f)
        (if_of_true (machine.has_memory (n * width)) (add_block (n * width)) (raise bad_alloc)
          found)
      ∙ (e ∙ sym (if_of_true (machine.has_memory (n * width)) _ (faulty bad_alloc) found))
  | inr lost ↦
      ap (λ m. and_then (m h) f)
        (if_of_false (machine.has_memory (n * width)) (add_block (n * width)) (raise bad_alloc)
          lost)
      ∙ sym (if_of_false (machine.has_memory (n * width)) _ (faulty bad_alloc) lost)
]

faulty_if :
    (b : Bool) (e e' : Fault)
    → ◌≡◌ {A = Run ℤ} (if b then faulty e else faulty e') (faulty (if b then e else e'))
faulty_if true e e' = refl
faulty_if false e e' = refl

module _ (machine : Machine) (h : Heap) where
  -- rcpp_read_out_of_bound never gives a value: inside the array there is none yet, outside the
  -- read is invalid, and without memory `new` throws.
  pub read_out_of_bound_lem :
      (rbound : ℤ)
      → read_out_of_bound machine rbound h ≡ (
          if machine.has_memory 400
          then faulty (if is_inside 4 (fresh true 400) rbound then uninitialized else invalid_read)
          else faulty bad_alloc)
  unfolding read_out_of_bound
  read_out_of_bound_lem rbound =
      after_new_array machine 4 100 (λ a. read 4 a rbound) h
        (read-last h 4 (fresh true 400) rbound
          ∙ faulty_if (is_inside 4 (fresh true 400) rbound) uninitialized invalid_read)

  -- rcpp_zero_sized_array writes behind the end of an array without elements, unless `new`
  -- throws.
  pub zero_sized_array_lem :
      (v : ℤ)
      → zero_sized_array machine v h
        ≡ (if machine.has_memory 0 then faulty invalid_write else faulty bad_alloc)
  unfolding zero_sized_array
  zero_sized_array_lem v =
      after_new_array machine 4 0 (λ p. write 4 p (pos 0) v >> read 4 p (pos 0)) h
        (ap (λ r. and_then r (λ _. read 4 (some (length h)) (pos 0)))
          (write-last h 4 (fresh true 0) (pos 0) v))

  -- For a size that is not negative rcpp_use_after_deallocate reads the freed array, if there was
  -- memory for it, and else `new` throws.
  pub use_after_deallocate_lem :
      (n : ℕ)
      → use_after_deallocate machine (pos n) h
        ≡ (if machine.has_memory (n * 1) then faulty access_after_free else faulty bad_alloc)
  unfolding use_after_deallocate delete_array
  use_after_deallocate_lem n =
      after_new_array machine 1 n (λ x. free x >> read 1 x (pos 5)) h
        (bind_of_returned (free (some (length h))) (λ _. read 1 (some (length h)) (pos 5))
            (h ++ (fresh true (n * 1) ∷ [])) (free-last h (n * 1))
          ∙ read-last h 1 (fresh false (n * 1)) (pos 5))

  after_malloc :
      (n : ℕ)
      → (malloc machine n >>= λ x. free x >> read 4 x (pos 10)) h
        ≡ faulty (if machine.has_memory n then access_after_free else null_access)
  unfolding malloc free read
  after_malloc n = elim (Bool-cases (machine.has_memory n)) [
    | inl found ↦
        ap (λ m. and_then (m h) (λ x. free x >> read 4 x (pos 10)))
          (if_of_true (machine.has_memory n) (add_block n) (pure none) found)
        ∙ (bind_of_returned (free (some (length h))) (λ _. read 4 (some (length h)) (pos 10))
              (h ++ (fresh true n ∷ [])) (free-last h n)
            ∙ (read-last h 4 (fresh false n) (pos 10)
                ∙ ap faulty
                    (sym (if_of_true (machine.has_memory n) access_after_free null_access found))))
    | inr lost ↦
        ap (λ m. and_then (m h) (λ x. free x >> read 4 x (pos 10)))
          (if_of_false (machine.has_memory n) (add_block n) (pure none) lost)
        ∙ ap faulty (sym (if_of_false (machine.has_memory n) access_after_free null_access lost))
  ]

  -- For every size rcpp_use_after_free reads the freed block, or null where there was no memory
  -- for it.
  pub use_after_free_lem :
      (alloc_size : ℤ)
      → use_after_free machine alloc_size h
        ≡ faulty (
            if machine.has_memory ((4 * to_size alloc_size) % 2 ^ 64)
            then access_after_free
            else null_access)
  unfolding use_after_free
  use_after_free_lem alloc_size = after_malloc ((4 * to_size alloc_size) % 2 ^ 64)
