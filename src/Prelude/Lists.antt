-- ===== src/Prelude/Lists.antt =====
-- Lists measured by native numbers, under the library's names, and copying into an array.
use Prim.Native.Nat.{ℕ, zero, suc, ◌+◌, ◌≤◌}
use Prim.Native.Char.{code}
use Prim.Native.String.{String}
use mathlib.Core.Path.{◌≡◌, refl, ap}
use mathlib.Core.List.{List, [], ◌∷◌, ◌++◌}
use native.Mathlib.Omega.{arith}

-- Bytes, as numbers below 256.
abbrev pub Bytes : Type 0
Bytes = List ℕ

-- The bytes of an ASCII literal.
abbrev pub codes : String → Bytes
codes String.[] = []
codes (String.◌∷◌ c s) = code c ∷ codes s

module _ {ℓ} {A : Type ℓ} where
  abbrev pub length : List A → ℕ
  length [] = 0
  length (x ∷ xs) = suc (length xs)

  abbrev pub take : ℕ → List A → List A
  take zero xs = []
  take (suc n) [] = []
  take (suc n) (x ∷ xs) = x ∷ take n xs

  abbrev pub drop : ℕ → List A → List A
  drop zero xs = xs
  drop (suc n) [] = []
  drop (suc n) (x ∷ xs) = drop n xs

  -- Shut, since the arrays are thousands of cells long.
  unfoldable pub replicate : ℕ → A → List A
  replicate zero a = []
  replicate (suc n) a = a ∷ replicate n a

  -- `std::memcpy` of a whole source to the start of an array; what would not fit is lost.
  unfoldable pub overlay : List A → List A → List A
  overlay dst [] = dst
  overlay [] (s ∷ src) = []
  overlay (d ∷ dst) (s ∷ src) = s ∷ overlay dst src

  -- `std::memcpy(dst + offset, src, src.size())`.
  unfoldable pub memcpy : List A → ℕ → List A → List A
  unfolding overlay
  memcpy dst zero src = overlay dst src
  memcpy [] (suc offset) src = []
  memcpy (d ∷ dst) (suc offset) src = d ∷ memcpy dst offset src

module _ {ℓ} {A : Type ℓ} where
  pub length-append : (xs ys : List A) → length (xs ++ ys) ≡ length xs + length ys
  length-append [] ys = omega arith
  length-append (x ∷ xs) ys = omega (arith, length-append xs ys)

  pub length-replicate : (n : ℕ) (a : A) → length (replicate n a) ≡ n
  unfolding replicate
  length-replicate zero a = refl
  length-replicate (suc n) a = ap suc (length-replicate n a)

  pub length-overlay : (dst src : List A) → length (overlay dst src) ≡ length dst
  unfolding overlay
  length-overlay dst [] = refl
  length-overlay [] (s ∷ src) = refl
  length-overlay (d ∷ dst) (s ∷ src) = ap suc (length-overlay dst src)

  pub length-memcpy :
      (dst : List A) (offset : ℕ) (src : List A) → length (memcpy dst offset src) ≡ length dst
  unfolding memcpy
  length-memcpy dst zero src = length-overlay dst src
  length-memcpy [] (suc offset) src = refl
  length-memcpy (d ∷ dst) (suc offset) src = ap suc (length-memcpy dst offset src)

  pub take-overlay :
      (dst src : List A) → length src ≤ length dst → take (length src) (overlay dst src) ≡ src
  unfolding overlay
  take-overlay dst [] h = refl
  take-overlay [] (s ∷ src) h = absurd (omega arith)
  take-overlay (d ∷ dst) (s ∷ src) h = ap (λ r. s ∷ r) (take-overlay dst src (omega arith))

  -- After the copy the array holds its old first `offset` cells and then the source.
  pub take-memcpy :
      (dst : List A) (offset n : ℕ) (src : List A)
      → n ≡ offset + length src
      → n ≤ length dst
      → take n (memcpy dst offset src) ≡ take offset dst ++ src
  unfolding memcpy
  take-memcpy dst zero n src e h =
      let e' : n ≡ length src = omega arith in rw e' (take-overlay dst src (omega arith))
  take-memcpy [] (suc offset) n src e h = absurd (omega arith)
  take-memcpy (d ∷ dst) (suc offset) zero src e h = absurd (omega arith)
  take-memcpy (d ∷ dst) (suc offset) (suc n) src e h =
      ap (λ r. d ∷ r) (take-memcpy dst offset n src (omega arith) (omega arith))

  pub length-take : (n : ℕ) (xs : List A) → n ≤ length xs → length (take n xs) ≡ n
  length-take zero xs h = refl
  length-take (suc n) [] h = absurd (omega arith)
  length-take (suc n) (x ∷ xs) h = ap suc (length-take n xs (omega arith))

  pub take-append : (xs ys : List A) → take (length xs) (xs ++ ys) ≡ xs
  take-append [] ys = refl
  take-append (x ∷ xs) ys = ap (λ r. x ∷ r) (take-append xs ys)

  pub drop-append : (xs ys : List A) → drop (length xs) (xs ++ ys) ≡ ys
  drop-append [] ys = refl
  drop-append (x ∷ xs) ys = drop-append xs ys

  pub take_self : (xs : List A) → take (length xs) xs ≡ xs
  take_self [] = refl
  take_self (x ∷ xs) = ap (λ r. x ∷ r) (take_self xs)
