-- ===== src/Core/AdaptivePi.antt =====
-- platform/ara-core/include/ara/core/adaptive_pi_error_domain.h.
use adaptive_pi.Prelude.{
  ℕ, ◌≡◌, refl, ◌↔◌, Bool, true, not, Option, none, some, codes, Run, done, throws, arith,
}
use adaptive_pi.Prelude.Int.{ℤ, pos}
use adaptive_pi.Core.ErrorDomain.{
  Converter, throw_adaptive_pi_exception, other_converter, ErrorDomain, ErrorCode, code_eq,
  code_eq_iff, throw_as_exception, make_error_domain,
}

pub data AdaptivePiErrc : Type 0 where
  k_invalid_argument k_invalid_state k_operation_failed : AdaptivePiErrc

-- The value of an enumerator.
abbrev pub errc_value : AdaptivePiErrc → ℤ
errc_value k_invalid_argument = pos 1
errc_value k_invalid_state = pos 2
errc_value k_operation_failed = pos 3

-- `AdaptivePiException` holds the error code that it was made of; other exceptions are the program's.
pub data Exception : Type 0 where
  adaptive_pi_exception : ErrorCode → Exception
  other_exception : ℕ → Exception

unfoldable pub exception_error : Exception → Option ErrorCode
exception_error (adaptive_pi_exception error) = some error
exception_error (other_exception n) = none

-- The call of a converter, where `others` are the program's own.
unfoldable pub call_converter :
    (others : ℕ → ErrorCode → Run Exception (Unit {0}))
    → Converter
    → ErrorCode
    → Run Exception (Unit {0})
call_converter others throw_adaptive_pi_exception error = throws (adaptive_pi_exception error)
call_converter others (other_converter n) error = others n error

-- The identifier holds "API" in its high bytes. The object is one, at an address of its own.
abbrev pub k_adaptive_pi_error_domain : ErrorDomain
k_adaptive_pi_error_domain = record {
  address = 1;
  id = 0x4150490000000001;
  name = codes "AdaptivePi";
  converter = some throw_adaptive_pi_exception;
}

unfoldable pub make_error_code : AdaptivePiErrc → ErrorCode
make_error_code error = record { value = errc_value error; domain = k_adaptive_pi_error_domain }

-- `operator==(const ErrorCode&, AdaptivePiErrc)`.
unfoldable pub code_eq_errc : ErrorCode → AdaptivePiErrc → Bool
unfolding code_eq make_error_code
code_eq_errc error_code error = code_eq error_code (make_error_code error)

-- `operator==(AdaptivePiErrc, const ErrorCode&)`.
unfoldable pub errc_eq_code : AdaptivePiErrc → ErrorCode → Bool
unfolding code_eq_errc
errc_eq_code error error_code = code_eq_errc error_code error

unfoldable pub code_ne_errc : ErrorCode → AdaptivePiErrc → Bool
unfolding code_eq_errc
code_ne_errc error_code error = not (code_eq_errc error_code error)

unfoldable pub errc_ne_code : AdaptivePiErrc → ErrorCode → Bool
unfolding errc_eq_code
errc_ne_code error error_code = not (errc_eq_code error error_code)

-- The published constant meets the conditions of its constructor.
k_adaptive_pi_error_domain_made :
    make_error_domain 1 0x4150490000000001 (codes "AdaptivePi") (some throw_adaptive_pi_exception)
    ≡ done k_adaptive_pi_error_domain
unfolding make_error_domain
k_adaptive_pi_error_domain_made = refl

-- The code of an enumerator equals that enumerator and no other.
pub make_error_code_injective :
    (e f : AdaptivePiErrc) → (code_eq_errc (make_error_code e) f ≡ true) ↔ (e ≡ f)
unfolding code_eq_errc
make_error_code_injective e f = (λ h. ground arith, λ h. ground arith)

-- A code equals an enumerator exactly if it has its value and the identifier of AdaptivePi's
-- domain; the other order of the operands gives the same, and the two operators for inequality the
-- negation.
pub code_eq_errc_iff :
    (a : ErrorCode) (e : AdaptivePiErrc)
    → ((code_eq_errc a e ≡ true) ↔ ((a.value ≡ errc_value e) × (a.domain.id ≡ 0x4150490000000001)))
      × (errc_eq_code e a ≡ code_eq_errc a e)
      × (code_ne_errc a e ≡ not (code_eq_errc a e))
      × (errc_ne_code e a ≡ not (code_eq_errc a e))
unfolding code_ne_errc errc_ne_code make_error_code
code_eq_errc_iff a e = (code_eq_iff a (make_error_code e), refl, refl, refl)

-- An error of AdaptivePi's domain is thrown as the exception that holds it.
pub throw_as_exception-adaptive_pi :
    (others : ℕ → ErrorCode → Run Exception (Unit {0})) (error : ErrorCode)
    → throw_as_exception (call_converter others) k_adaptive_pi_error_domain error
      ≡ throws (adaptive_pi_exception error)
unfolding throw_as_exception call_converter
throw_as_exception-adaptive_pi others error = refl
