-- ===== src/Base/Results.antt =====
-- What a Go function does: it returns a value, or it panics. `stuck` is no behaviour of Go: a
-- loop of the model ran out of the fuel that it was given.
use mathlib.Core.Path.{◌≡◌, refl}
use mathlib.Core.Bool.{Bool, true, false}
use wirepup.Base.Tests.{if◌then◌else◌}

pub data Go {ℓ} (A : Type ℓ) : Type ℓ where
  ret : A → Go A
  panic : Go A
  stuck : Go A

infixl 5 ◌>>=◌
abbrev pub ◌>>=◌ {ℓ κ} : {A : Type ℓ} {B : Type κ} → Go A → (A → Go B) → Go B
ret a >>= f = f a
panic >>= f = panic
stuck >>= f = stuck

-- A (value, error) pair where the value is empty beside an error.
pub data Result {ℓ κ} (E : Type κ) (A : Type ℓ) : Type (ℓ ⊔ κ) where
  ok : A → Result E A
  err : E → Result E A

-- Inversion of a bind that returns.
pub >>=-eq-ret {ℓ κ} :
    {A : Type ℓ} {B : Type κ} (m : Go A) (f : A → Go B) {b : B}
    → (m >>= f) ≡ ret b
    → (a : A) × (m ≡ ret a) × (f a ≡ ret b)
>>=-eq-ret (ret a) f h = (a, refl, h)
>>=-eq-ret panic f h = cc
>>=-eq-ret stuck f h = cc

-- Total correctness: the call returns, and its result is as `P` says.
abbrev pub Ensures {ℓ} : {A : Type ℓ} → (A → Type 0) → Go A → Type 0
Ensures P (ret a) = P a
Ensures P panic = ⊥
Ensures P stuck = ⊥

pub Ensures-map {ℓ} :
    {A : Type ℓ} (P Q : A → Type 0) (m : Go A) → ((a : A) → P a → Q a) → Ensures P m → Ensures Q m
Ensures-map P Q (ret a) f h = f a h
Ensures-map P Q panic f h = h
Ensures-map P Q stuck f h = h

pub Ensures-bind {ℓ κ} :
    {A : Type ℓ} {B : Type κ} (P : A → Type 0) (Q : B → Type 0) (m : Go A) (f : A → Go B)
    → Ensures P m
    → ((a : A) → P a → Ensures Q (f a))
    → Ensures Q (m >>= f)
Ensures-bind P Q (ret a) f h k = k a h
Ensures-bind P Q panic f h k = h
Ensures-bind P Q stuck f h k = h

pub Ensures-ret {ℓ} :
    {A : Type ℓ} (P : A → Type 0) (m : Go A) → Ensures P m → (a : A) × (m ≡ ret a) × P a
Ensures-ret P (ret a) h = (a, refl, h)
Ensures-ret P panic h = absurd h
Ensures-ret P stuck h = absurd h

pub Ensures-if {ℓ} :
    {A : Type ℓ} (P : A → Type 0) (c : Bool) (x y : Go A)
    → (c ≡ true → Ensures P x)
    → (c ≡ false → Ensures P y)
    → Ensures P (if c then x else y)
Ensures-if P true x y h k = h refl
Ensures-if P false x y h k = k refl

pub >>=_assoc {ℓ κ μ} :
    {A : Type ℓ} {B : Type κ} {C : Type μ} (m : Go A) (f : A → Go B) (g : B → Go C)
    → (m >>= f >>= g) ≡ (m >>= λ a. f a >>= g)
>>=_assoc (ret a) f g = refl
>>=_assoc panic f g = refl
>>=_assoc stuck f g = refl
