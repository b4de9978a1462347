-- ===== src/Prelude/Control.antt =====
-- What a call can do besides returning: throw, or call `std::terminate`.
use mathlib.Core.Option.{Option, none, some}
use mathlib.Core.Path.{◌≡◌, refl}

-- `X` is the type of exceptions. A `noexcept` function has the type `Run ⊥ A`.
pub data Run {ℓ κ} (X : Type ℓ) (A : Type κ) : Type (ℓ ⊔ κ) where
  done : A → Run X A
  throws : X → Run X A
  terminates : Run X A

infixl 5 ◌>>=◌ ◌>>◌
abbrev pub ◌>>=◌ {ℓ κ μ} :
    {X : Type ℓ} {A : Type κ} {B : Type μ} → Run X A → (A → Run X B) → Run X B
done a >>= f = f a
throws x >>= f = throws x
terminates >>= f = terminates

abbrev pub ◌>>◌ {ℓ κ} : {X : Type ℓ} {B : Type κ} → Run X (Unit {0}) → Run X B → Run X B
m >> k = m >>= λ _. k

-- A `noexcept` call made from code that may throw.
abbrev pub noexcept {ℓ κ} : {X : Type ℓ} {A : Type κ} → Run ⊥ A → Run X A
noexcept (done a) = done a
noexcept (throws x) = absurd x
noexcept terminates = terminates

abbrev pub map_run {ℓ κ μ} : {X : Type ℓ} {A : Type κ} {B : Type μ} → (A → B) → Run X A → Run X B
map_run f (done a) = done (f a)
map_run f (throws x) = throws x
map_run f terminates = terminates

-- The chain of steps that may have no result; for modules whose `do` blocks run over `Option`.
abbrev pub bind {ℓ κ} : {A : Type ℓ} {B : Type κ} → Option A → (A → Option B) → Option B
bind none f = none
bind (some a) f = f a

-- A chain with a result has a result at its first step.
pub bind-some {ℓ κ} :
    {A : Type ℓ} {B : Type κ} (m : Option A) (f : A → Option B) {b : B}
    → bind m f ≡ some b
    → (a : A) × (m ≡ some a) × (f a ≡ some b)
bind-some none f h = cc
bind-some (some a) f h = (a, refl, h)
