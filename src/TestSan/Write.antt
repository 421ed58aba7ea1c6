-- ===== src/TestSan/Write.antt =====
-- Which inputs make `rcpp_write_index_outofbound` write outside its array.
use rcpp_deep_state.Base.{
  ℕ, suc, ◌+◌, ◌*◌, ◌^◌, ◌-◌, ◌≤◌, ◌<◌, ◌≡◌, refl, ap, sym, ◌∙◌, ◌↔◌, true, ℤ, pos, negsuc, ◌+ℤ◌,
  leb, ltb, ltb_ℤ, IsBetween, IsRepresentable, some, [], ◌∷◌, ◌++◌, length, Bool-cases, inl, inr,
  ◌||◌, if◌then◌else◌, if_of_true, if_of_false, arith,
}
use rcpp_deep_state.TestSan.Blocks.{
  Fault, bad_alloc, invalid_write, overflow, Heap, Run, returned, faulty, Memory, Machine, ◌>>=◌,
  ◌>>◌, raise, pure, and_then, Pointer, write, write_block, add_int,
}
use rcpp_deep_state.TestSan.Laws.{fresh, write-last, bind_of_returned, after_new_array}
use rcpp_deep_state.TestSan.{write_index_outofbound}

add_int_lem :
    (x y z : ℤ) (h : Heap) → x +ℤ y ≡ z → IsRepresentable (2 ^ 31) z → add_int x y h ≡ returned z h
unfolding add_int
add_int_lem x y z h e fits =
    ap
      (λ v.
        (if ltb_ℤ v (negsuc (2 ^ 31 - 1)) || ltb_ℤ (pos (2 ^ 31 - 1)) v
            then raise overflow
            else pure v)
          h)
      e
    ∙ in_range z fits
  where
    in_range :
        (z : ℤ)
        → IsRepresentable (2 ^ 31) z
        → (if ltb_ℤ z (negsuc (2 ^ 31 - 1)) || ltb_ℤ (pos (2 ^ 31 - 1)) z
              then raise overflow
              else pure z)
            h
          ≡ returned z h
    in_range (pos n) f = ground arith
    in_range (negsuc n) f = ground arith

add_int_overflow :
    (x y : ℤ) (n : ℕ) (h : Heap) → x +ℤ y ≡ pos n → 2 ^ 31 ≤ n → add_int x y h ≡ faulty overflow
unfolding add_int
add_int_overflow x y n h e large =
    ap
      (λ v.
        (if ltb_ℤ v (negsuc (2 ^ 31 - 1)) || ltb_ℤ (pos (2 ^ 31 - 1)) v
            then raise overflow
            else pure v)
          h)
      e
    ∙ ground arith

sum_below : (n : ℕ) → n < 100 → negsuc n +ℤ pos 100 ≡ pos (99 - n)
unfolding ◌+ℤ◌
sum_below n h = ground arith

sum_far : (n : ℕ) → 100 ≤ n → negsuc n +ℤ pos 100 ≡ negsuc (n - 100)
unfolding ◌+ℤ◌
sum_far n h = ground arith

sum_pos : (n : ℕ) → pos n +ℤ pos 100 ≡ pos (n + 100)
unfolding ◌+ℤ◌
sum_pos n = ground arith

-- What follows the allocation.
abbrev rest : Pointer → ℤ → Memory ℤ
rest a w = add_int w (pos 100) >>= λ i. write 4 a i (pos 50) >> pure (pos 0)

-- An outcome with value 0 and the given heap, or none.
abbrev IsZero : Run ℤ → Type 0
IsZero r = (h' : Heap) × (r ≡ returned (pos 0) h')

module _ (h : Heap) where
  rest_at :
      (w i : ℤ)
      → w +ℤ pos 100 ≡ i
      → IsRepresentable (2 ^ 31) i
      → rest (some (length h)) w (h ++ (fresh true 400 ∷ []))
        ≡ and_then
            (write_block 4 i (pos 50) (length h) (fresh true 400) (h ++ (fresh true 400 ∷ [])))
            (λ _. pure (pos 0))
  rest_at w i e fits =
      bind_of_returned (add_int w (pos 100))
        (λ i. write 4 (some (length h)) i (pos 50) >> pure (pos 0)) (h ++ (fresh true 400 ∷ []))
        (add_int_lem w (pos 100) i (h ++ (fresh true 400 ∷ [])) e fits)
      ∙ ap (λ r. and_then r (λ _. pure (pos 0))) (write-last h 4 (fresh true 400) i (pos 50))

  rest_below :
      (n : ℕ) → n < 100 → IsZero (rest (some (length h)) (negsuc n) (h ++ (fresh true 400 ∷ [])))
  rest_below n below = (
    _,
    rest_at (negsuc n) (pos (99 - n)) (sum_below n below) (omega arith, omega arith)
        ∙ ap (λ r. and_then r (λ _. pure (pos 0)))
            (if_of_true (leb (suc (99 - n) * 4) 400) _ (faulty invalid_write) (ground arith)),
  )

  rest_far :
      (n : ℕ)
      → 100 ≤ n
      → n < 2 ^ 31
      → rest (some (length h)) (negsuc n) (h ++ (fresh true 400 ∷ [])) ≡ faulty invalid_write
  rest_far n far fits =
      rest_at (negsuc n) (negsuc (n - 100)) (sum_far n far) (omega arith, omega arith)

  rest_pos :
      (n : ℕ)
      → (e : Fault) × (rest (some (length h)) (pos n) (h ++ (fresh true 400 ∷ [])) ≡ faulty e)
  rest_pos n = elim (Bool-cases (ltb (n + 100) (2 ^ 31))) [
    | inl small ↦ (
      invalid_write,
      rest_at (pos n) (pos (n + 100)) (sum_pos n) (omega arith, ground arith)
          ∙ ap (λ r. and_then r (λ _. pure (pos 0)))
              (if_of_false (leb (suc (n + 100) * 4) 400) _ (faulty invalid_write) (ground arith)),
    )
    | inr large ↦ (
      overflow,
      ap (λ r. and_then r (λ i. write 4 (some (length h)) i (pos 50) >> pure (pos 0)))
          (add_int_overflow (pos n) (pos 100) (n + 100) (h ++ (fresh true 400 ∷ [])) (sum_pos n)
            (ground arith)),
    )
  ]

no_value : {e : Fault} {h' : Heap} → ◌≡◌ {A = Run ℤ} (faulty e) (returned (pos 0) h') → ⊥
no_value p = cc

module _ (h : Heap) where
  rest_iff :
      (w : ℤ)
      → IsRepresentable (2 ^ 31) w
      → IsZero (rest (some (length h)) w (h ++ (fresh true 400 ∷ [])))
        ↔ IsBetween (negsuc 99) (negsuc 0) w
  rest_iff (pos n) fits =
      ((λ (h', e). absurd (no_value (sym ((rest_pos h n).1) ∙ e))), λ between. absurd (omega arith))
  rest_iff (negsuc n) fits = elim (Bool-cases (ltb n 100)) [
    | inl below ↦ ((λ z. (ground arith, omega arith)), λ between. rest_below h n (ground arith))
    | inr far ↦ (
      (λ (h', e). absurd (no_value (sym (rest_far h n (ground arith) (omega arith)) ∙ e))),
      λ between. absurd (ground arith),
    )
  ]

-- With memory for the array, and for int arguments, rcpp_write_index_outofbound returns 0 exactly
-- at the 100 arguments from -100 to -1, where its index lies inside the array.
pub write_index_outofbound_iff :
    (machine : Machine) (h : Heap) (wbound : ℤ)
    → machine.has_memory 400 ≡ true
    → IsRepresentable (2 ^ 31) wbound
    → ((h' : Heap) × (write_index_outofbound machine wbound h ≡ returned (pos 0) h'))
      ↔ IsBetween (negsuc 99) (negsuc 0) wbound
unfolding write_index_outofbound
write_index_outofbound_iff machine h wbound found fits =
    let same =
      after_new_array machine 4 100 (λ a. rest a wbound) h refl
      ∙ if_of_true (machine.has_memory 400)
          (rest (some (length h)) wbound (h ++ (fresh true 400 ∷ []))) (faulty bad_alloc) found in
    let iff = rest_iff h wbound fits in
    (
      (λ (h', e). iff.0 (h', sym same ∙ e)),
      λ between. ((iff.1 between).0, same ∙ (iff.1 between).1),
    )
