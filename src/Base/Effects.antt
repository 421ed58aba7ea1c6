-- ===== src/Base/Effects.antt =====
-- Computations over a state `S` that can stop, and what a computation guarantees of its outcome.
use Prim.Native.Nat.{ℕ}
use mathlib.Core.Path.{◌≡◌, refl}
use mathlib.Core.Bool.{Bool, true, false}
use rcpp_deep_state.Base.Tests.{if◌then◌else◌}
use rcpp_deep_state.Base.Int.{ℤ}

-- Why a computation ended early. `assume_failed`: the path is cut by an assumption that does not
-- hold. `abandoned`: a call of DeepState_Abandon. `bad_length`: R refuses a negative length. The
-- other two are undefined behaviour of C: a division by zero, and an access of element `index` of
-- an array of `size` elements.
pub data Stop : Type 0 where
  assume_failed : Stop
  abandoned : Stop
  bad_length : ℤ → Stop
  divide_by_zero : Stop
  out_of_bounds : ℤ → ℕ → Stop

pub data Result (A : Type 0) : Type 0 where
  ok : A → Result A
  stop : Stop → Result A

abbrev pub Computation : Type 0 → Type 0 → Type 0
Computation S A = S → Result (A × S)

module _ {S A : Type 0} where
  abbrev pub pure : A → Computation S A
  pure a s = ok (a, s)

  abbrev pub halt : Stop → Computation S A
  halt e s = stop e

infixl 5 ◌>>=◌ ◌>>◌
abbrev pub ◌>>=◌ : {S A B : Type 0} → Computation S A → (A → Computation S B) → Computation S B
◌>>=◌ m f s = elim (m s) [ ok (a, s') ↦ f a s' | stop e ↦ stop e ]

abbrev pub ◌>>◌ : {S A B : Type 0} → Computation S A → Computation S B → Computation S B
m >> k = m >>= λ _. k

-- An outcome is a value with `P`, or a stop that `R` allows.
abbrev pub Good : {S A : Type 0} → (Stop → Type 0) → (A → Type 0) → Result (A × S) → Type 0
Good R P (ok (a, s)) = P a
Good R P (stop e) = R e

-- From every state the computation ends well.
abbrev pub Meets : {S A : Type 0} → (Stop → Type 0) → Computation S A → (A → Type 0) → Type 0
Meets {S} R m P = (s : S) → Good R P (m s)

-- Only symbolic execution cuts a path, and nothing else stops.
abbrev pub CutIf : Bool → Stop → Type 0
CutIf sym assume_failed = sym ≡ true
CutIf sym _ = ⊥

-- The outcomes are read by helpers with the predicates explicit.
Good-bind :
    {S A B : Type 0} (R : Stop → Type 0) (P : A → Type 0) (Q : B → Type 0) (r : Result (A × S))
    (f : A → Computation S B)
    → Good R P r
    → ((a : A) → P a → Meets R (f a) Q)
    → Good R Q (elim r [ ok (a, s') ↦ f a s' | stop e ↦ stop e ])
Good-bind R P Q (ok (a, s)) f h k = k a h s
Good-bind R P Q (stop e) f h k = h

-- What the first part guarantees is handed to the second.
pub Meets-bind :
    {S A B : Type 0} (R : Stop → Type 0) (P : A → Type 0) (Q : B → Type 0) (m : Computation S A)
    (f : A → Computation S B)
    → Meets R m P
    → ((a : A) → P a → Meets R (f a) Q)
    → Meets R (m >>= f) Q
Meets-bind R P Q m f h k s = Good-bind R P Q (m s) f (h s) k

Good-weaken :
    {S A : Type 0} (R R' : Stop → Type 0) (P P' : A → Type 0) (r : Result (A × S))
    → ((e : Stop) → R e → R' e)
    → ((a : A) → P a → P' a)
    → Good R P r
    → Good R' P' r
Good-weaken R R' P P' (ok (a, s)) hr hp h = hp a h
Good-weaken R R' P P' (stop e) hr hp h = hr e h

pub Meets-weaken :
    {S A : Type 0} (R R' : Stop → Type 0) (P P' : A → Type 0) (m : Computation S A)
    → ((e : Stop) → R e → R' e)
    → ((a : A) → P a → P' a)
    → Meets R m P
    → Meets R' m P'
Meets-weaken R R' P P' m hr hp h s = Good-weaken R R' P P' (m s) hr hp (h s)

-- A first part that returns hands its value and state on; one that stops ends the whole.
pub bind_of_ok :
    {S A B : Type 0} (m : Computation S A) (f : A → Computation S B) (s : S) {a : A} {s' : S}
    → m s ≡ ok (a, s')
    → (m >>= f) s ≡ f a s'
bind_of_ok m f s e = rw (e, ◌>>=◌)

pub bind_of_stop :
    {S A B : Type 0} (m : Computation S A) (f : A → Computation S B) (s : S) {e : Stop}
    → m s ≡ stop e
    → (m >>= f) s ≡ stop e
bind_of_stop m f s e = rw (e, ◌>>=◌)

pub Meets-mono :
    {S A : Type 0} (R : Stop → Type 0) (P P' : A → Type 0) (m : Computation S A)
    → ((a : A) → P a → P' a)
    → Meets R m P
    → Meets R m P'
Meets-mono R P P' m hp h s = Good-weaken R R P P' (m s) (λ e c. c) hp (h s)

-- Each branch of a test is met under what the test says.
pub Meets-if :
    {S A : Type 0} (R : Stop → Type 0) (P : A → Type 0) (b : Bool) (m n : Computation S A)
    → (b ≡ true → Meets R m P)
    → (b ≡ false → Meets R n P)
    → Meets R (if b then m else n) P
Meets-if R P true m n h k = h refl
Meets-if R P false m n h k = k refl
