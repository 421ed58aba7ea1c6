-- ===== src/Frontend/Folder/Laws.antt =====
-- What is in a folder after a file is added or removed.
use rcpp_deep_state.Base.{
  ◌≡◌, ◌≢◌, refl, true, false, [], ◌∷◌, str_eq, str_eq_lem, str_eq_refl, str_eq_of_ne, is_in,
  Bool-cases, inl, inr, arith,
}
use rcpp_deep_state.Frontend.Types.{Text}
use rcpp_deep_state.Frontend.Folder.{Folder, add, remove}

pub is_in-add-same : (n : Text) (d : Folder) → is_in n (add n d) ≡ true
unfolding add
is_in-add-same n d = ground (arith, str_eq_refl n)

pub is_in-add : (n m : Text) (d : Folder) → is_in n d ≡ true → is_in n (add m d) ≡ true
unfolding add
is_in-add n m d h = ground arith

pub is_in-add-other : (n m : Text) (d : Folder) → n ≢ m → is_in n (add m d) ≡ is_in n d
unfolding add
is_in-add-other n m d h = ground (arith, str_eq_of_ne n m h)

pub is_in-remove-same : (n : Text) (d : Folder) → is_in n (remove n d) ≡ false
unfolding remove
is_in-remove-same n [] = refl
is_in-remove-same n (m ∷ d) = ground (arith, is_in-remove-same n d)

pub is_in-remove : (n m : Text) (d : Folder) → n ≢ m → is_in n (remove m d) ≡ is_in n d
unfolding remove
is_in-remove n m [] h = refl
is_in-remove n m (k ∷ d) h = elim (Bool-cases (str_eq m k)) [
  | inl same ↦ ground (arith, is_in-remove n m d h, str_eq_lem m k same, str_eq_of_ne n m h)
  | inr other ↦ ground (arith, is_in-remove n m d h)
]
