-- ===== src/Core/ErrorDomain.antt =====
-- platform/ara-core/include/ara/core/error_domain.h and error_code.h. A domain is immutable
-- and outlives the error codes that refer to it; its address tells it from its copies.
use adaptive_pi.Prelude.{
  ℕ, ◌≡◌, ◌↔◌, Bool, true, false, not, ◌&&◌, ◌||◌, Option, none, some, Bytes, Run, done, throws,
  terminates, refl, ◌>>=◌, is_some, is_empty, ◌==◌, if◌then◌else◌, arith,
}
use adaptive_pi.Prelude.Int.{ℤ, ◌==ℤ◌, ==ℤ_iff}

-- A pointer to a function that turns an error code into an exception: that of AdaptivePi's own
-- domain, or one that the program has elsewhere.
pub data Converter : Type 0 where
  throw_adaptive_pi_exception : Converter
  other_converter : ℕ → Converter

-- The identifier is a `std::uint64_t`; the address is that of the object.
pub record ErrorDomain : Type 0 where
  pub address : ℕ
  pub id : ℕ
  pub name : Bytes
  pub converter : Option Converter

-- The constructor of builds with exceptions, of an object at an address.
unfoldable pub make_error_domain : (address : ℕ) → ℕ → Bytes → Option Converter → Run ⊥ ErrorDomain
make_error_domain address id name converter =
    if is_empty name || not (is_some converter)
    then terminates
    else done (record { address = address; id = id; name = name; converter = converter })

-- The constructor of builds without exceptions, whose domains have no converter.
unfoldable pub make_plain_error_domain : (address : ℕ) → ℕ → Bytes → Run ⊥ ErrorDomain
make_plain_error_domain address id name =
    if is_empty name
    then terminates
    else done (record { address = address; id = id; name = name; converter = none })

unfoldable pub domain_eq : ErrorDomain → ErrorDomain → Bool
domain_eq d other = d.id == other.id

-- The domain is that which the code points to.
pub record ErrorCode : Type 0 where
  pub value : ℤ
  pub domain : ErrorDomain

unfoldable pub code_eq : ErrorCode → ErrorCode → Bool
unfolding domain_eq
code_eq e other = e.value ==ℤ other.value && domain_eq e.domain other.domain

unfoldable pub domain_ne : ErrorDomain → ErrorDomain → Bool
unfolding domain_eq
domain_ne d other = not (domain_eq d other)

unfoldable pub code_ne : ErrorCode → ErrorCode → Bool
unfolding code_eq
code_ne e other = not (code_eq e other)

module _ {X : Type 0} (call : Converter → ErrorCode → Run X (Unit {0})) where
  -- `ThrowAsException` does not return, so its result has no value. `call` is the call of a
  -- converter, which may return, throw or terminate.
  unfoldable pub throw_as_exception : ErrorDomain → ErrorCode → Run X ⊥
  throw_as_exception d error = elim d.converter [
    | none ↦ terminates
    | some converter ↦ call converter error >>= λ _. terminates
  ]

  -- What comes of an error: without a converter the program terminates; a converter that throws
  -- lets its exception through, and one that returns ends the program as well.
  abbrev came_back : {T : Type 0} → Run X (Unit {0}) → Run X T
  came_back (done u) = terminates
  came_back (throws x) = throws x
  came_back terminates = terminates

  abbrev pub handed_over : {T : Type 0} → Option Converter → ErrorCode → Run X T
  handed_over none e = terminates
  handed_over (some converter) e = came_back (call converter e)

  abbrev ended : Run X ⊥
  ended = terminates

  came_back_lem :
      {T : Type 0} (m : Run X (Unit {0}))
      → ((m >>= λ _. ended) >>= λ never. absurd never) ≡ came_back {T = T} m
  came_back_lem (done u) = refl
  came_back_lem (throws x) = refl
  came_back_lem terminates = refl

  handed_over_lem :
      {T : Type 0} (o : Option Converter) (e : ErrorCode)
      → ((elim o [ none ↦ ended | some converter ↦ call converter e >>= λ _. terminates ])
          >>= λ never. absurd never)
        ≡ handed_over {T = T} o e
  handed_over_lem none e = refl
  handed_over_lem (some converter) e = came_back_lem (call converter e)

  pub throw_as_exception_lem :
      {T : Type 0} (d : ErrorDomain) (e : ErrorCode)
      → (throw_as_exception d e >>= λ never. absurd never) ≡ handed_over {T = T} d.converter e
  unfolding throw_as_exception
  throw_as_exception_lem d e = handed_over_lem d.converter e

-- Two error codes are equal exactly if their values and the identifiers of their domains are.
pub code_eq_iff :
    (a b : ErrorCode) → (code_eq a b ≡ true) ↔ ((a.value ≡ b.value) × (a.domain.id ≡ b.domain.id))
unfolding code_eq
code_eq_iff a b =
    (λ h. ((==ℤ_iff a.value b.value).0 (ground arith), ground arith), λ h. ground arith)

-- Equality of error codes is reflexive; of a chain of equal codes the ends are equal, in either order, and the
-- operator for inequality denies it.
pub code_eq_equivalence :
    (a b c : ErrorCode)
    → code_eq a b ≡ true
    → code_eq b c ≡ true
    → (code_eq a a ≡ true) × (code_eq a c ≡ true) × (code_eq c a ≡ true) × (code_ne a c ≡ false)
unfolding code_eq code_ne
code_eq_equivalence a b c h k = (ground arith, ground arith, ground arith, ground arith)
