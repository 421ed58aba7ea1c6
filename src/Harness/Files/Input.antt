-- ===== src/Harness/Files/Input.antt =====
-- What the input buffer holds after DeepState_InitInputFromFile.
use rcpp_deep_state.Base.{
  ℕ, zero, suc, ◌+◌, ◌-◌, ◌≤◌, ◌<◌, ◌≡◌, refl, ap, sym, ◌∙◌, subst, true, Option, none, some, List,
  [], ◌∷◌, ◌++◌, length, replicate, length-replicate, length-append, take, length-take, get_elem?,
  ltb, ◌==◌, if_of_true, if_of_false, Bool-cases, inl, inr, if◌then◌else◌, arith,
}
use rcpp_deep_state.Harness.Types.{Host, File, World, done, jumped}
use rcpp_deep_state.Harness.Files.{input_size, to_read, load, load_from, init_input_from_file}

module _ {A : Type 0} where
  get_elem?-append_left :
      (xs ys : List A) (i : ℕ) → i < length xs → get_elem? (xs ++ ys) i ≡ get_elem? xs i
  get_elem?-append_left [] ys i h = absurd (omega arith)
  get_elem?-append_left (x ∷ xs) ys zero h = refl
  get_elem?-append_left (x ∷ xs) ys (suc i) h = get_elem?-append_left xs ys i (omega arith)

  get_elem?-append_replicate :
      (xs : List A) (n : ℕ) (a : A) (i : ℕ)
      → length xs ≤ i
      → i < length xs + n
      → get_elem? (xs ++ replicate n a) i ≡ some a
  get_elem?-append_replicate [] zero a i h k = absurd (omega arith)
  get_elem?-append_replicate [] (suc n) a zero h k = refl
  get_elem?-append_replicate [] (suc n) a (suc i) h k =
      get_elem?-append_replicate [] n a i (omega arith) (omega arith)
  get_elem?-append_replicate (x ∷ xs) n a zero h k = absurd (omega arith)
  get_elem?-append_replicate (x ∷ xs) n a (suc i) h k =
      get_elem?-append_replicate xs n a i (omega arith) (omega arith)

  get_elem?-take : (n : ℕ) (xs : List A) (i : ℕ) → i < n → get_elem? (take n xs) i ≡ get_elem? xs i
  get_elem?-take zero xs i h = absurd (omega arith)
  get_elem?-take (suc n) [] i h = refl
  get_elem?-take (suc n) (x ∷ xs) zero h = refl
  get_elem?-take (suc n) (x ∷ xs) (suc i) h = get_elem?-take n xs i (omega arith)

  length-take_all : (n : ℕ) (xs : List A) → n ≤ length xs → length (take n xs) ≡ n
  length-take_all zero xs h = refl
  length-take_all (suc n) [] h = absurd (omega arith)
  length-take_all (suc n) (x ∷ xs) h = ap suc (length-take_all n xs (omega arith))

to_read_bound : (file : File) → to_read file ≤ input_size
unfolding to_read
to_read_bound file = ground arith

same_test : (n m : ℕ) → n ≡ m → (n == m) ≡ true
same_test n m e = ground arith

fits : {m : ℕ} (n : ℕ) → n ≤ m → m ≤ input_size → n + (input_size - n) ≡ input_size
fits n h k = omega arith

length-load : (scrub : ℕ) (file : File) (w : World) → length (load scrub file w).input ≡ input_size
unfolding load
length-load scrub file w =
    let got = take (to_read file) file.bytes in
    length-append got (replicate (input_size - length got) scrub)
    ∙ (ap (λ n. length got + n) (length-replicate (input_size - length got) scrub)
        ∙ fits (length got) (length-take (to_read file) file.bytes) (to_read_bound file))

length-load_from :
    (scrub : ℕ) (o : Option File) (w : World)
    → length w.input ≡ input_size
    → length (load_from scrub o w).1.input ≡ input_size
unfolding load_from
length-load_from scrub none w e = e
length-load_from scrub (some file) w e = length-load scrub file w

-- DeepState_InitInputFromFile keeps the size of the buffer, 8192 bytes, whatever the file is and
-- also where it abandons the test.
pub length-init_input_from_file :
    (h : Host) (path : List ℕ) (w : World)
    → length w.input ≡ input_size
    → length (init_input_from_file h path w).1.input ≡ input_size
unfolding init_input_from_file
length-init_input_from_file h path w e = length-load_from h.scrub (h.open_file path) w e

load_lem :
    (scrub : ℕ) (file : File) (w : World) (i : ℕ)
    → to_read file ≤ length file.bytes
    → i < input_size
    → get_elem? (load scrub file w).input i
      ≡ (if ltb i (to_read file) then get_elem? file.bytes i else some scrub)
unfolding load
load_lem scrub file w i enough below =
    let got = take (to_read file) file.bytes in
    let size = length-take_all (to_read file) file.bytes enough in
    elim (Bool-cases (ltb i (to_read file))) [
      | inl early ↦
          get_elem?-append_left got _ i (subst (λ n. i < n) (sym size) (ground arith))
          ∙ (get_elem?-take (to_read file) file.bytes i (ground arith)
              ∙ sym (if_of_true (ltb i (to_read file)) _ _ early))
      | inr late ↦
          get_elem?-append_replicate got (input_size - length got) scrub i
            (subst (λ n. n ≤ i) (sym size) (ground arith)) (omega arith)
          ∙ sym (if_of_false (ltb i (to_read file)) _ _ late)
    ]

-- If the file can be opened and delivers as many bytes as its size asks for, at most 8192, then
-- DeepState_InitInputFromFile succeeds: the buffer holds those bytes, behind them what
-- DeepState_MemScrub leaves and nothing of an earlier test, and is read from its beginning.
pub init_input_from_file_done :
    (h : Host) (path : List ℕ) (w : World) (file : File) (i : ℕ)
    → h.open_file path ≡ some file
    → to_read file ≤ length file.bytes
    → i < input_size
    → (w' : World) × (init_input_from_file h path w ≡ (done tt, w'))
      × (get_elem? w'.input i
          ≡ (if ltb i (to_read file) then get_elem? file.bytes i else some h.scrub))
      × (w'.input_index ≡ 0)
      × (w'.events ≡ w.events)
unfolding init_input_from_file load_from load
init_input_from_file_done h path w file i opened enough below = (
  load h.scrub file w,
  ap (λ o. load_from h.scrub o w) opened
      ∙ ap (λ o. (o, load h.scrub file w))
          (if_of_true _ (done tt) jumped
            (same_test _ _ (length-take_all (to_read file) file.bytes enough))),
  load_lem h.scrub file w i enough below,
  refl,
  refl,
)
