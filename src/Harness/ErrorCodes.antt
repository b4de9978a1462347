-- ===== src/Harness/ErrorCodes.antt =====
-- platform/ara-core/proofs/proof_error_code.cpp.
use adaptive_pi.Prelude.{
  ℕ, ◌≡◌, refl, Bool, true, false, not, ◌&&◌, some, none, Bytes, codes, Run, done, ◌>>=◌, ◌>>◌,
  ◌==◌, ==_iff, if◌then◌else◌,
}
use adaptive_pi.Prelude.Int.{ℤ, ◌==ℤ◌, ==ℤ_iff}
use adaptive_pi.Core.ErrorDomain.{
  ErrorDomain, ErrorCode, Converter, other_converter, make_error_domain, make_plain_error_domain,
  code_eq, code_ne, domain_eq,
}
use adaptive_pi.Harness.{assert}

-- `UnusedConverter`, in builds with exceptions.
abbrev unused_converter : Converter
unused_converter = other_converter 0

abbrev bool_eq : Bool → Bool → Bool
bool_eq true b = b
bool_eq false b = not b

-- The domain that the harness makes, in either kind of build.
unfoldable pub harness_domain :
    (exceptions_enabled : Bool) (address : ℕ) → ℕ → Bytes → Run ⊥ ErrorDomain
unfolding make_error_domain make_plain_error_domain
harness_domain exceptions_enabled address id name =
    if exceptions_enabled
    then make_error_domain address id name (some unused_converter)
    else make_plain_error_domain address id name

module _ (first_value second_value : ℤ) (first_domain second_domain : ErrorDomain) where
  -- The assertions about the two error codes.
  check_codes : (first second : ErrorCode) → (expected_equal : Bool) → Run ⊥ (Unit {0})
  unfolding code_eq code_ne
  check_codes first second expected_equal = do
    assert (first.value ==ℤ first_value)
    assert (second.value ==ℤ second_value)
    assert (first.domain.address == first_domain.address)
    assert (second.domain.address == second_domain.address)
    assert (bool_eq (code_eq first second) expected_equal)
    assert (bool_eq (code_ne first second) (not expected_equal))

bool_eq_self : (b : Bool) → bool_eq b b ≡ true
bool_eq_self true = refl
bool_eq_self false = refl

check_codes-done :
    (first_value second_value : ℤ) (first_domain second_domain : ErrorDomain)
    → check_codes first_value second_value first_domain second_domain
        (record { value = first_value; domain = first_domain })
        (record { value = second_value; domain = second_domain })
        ((first_value ==ℤ second_value) && first_domain.id == second_domain.id)
      ≡ done tt
unfolding check_codes domain_eq
check_codes-done v u d e =
    let same : (v ==ℤ v) ≡ true = (==ℤ_iff v v).1 refl in
    let same' : (u ==ℤ u) ≡ true = (==ℤ_iff u u).1 refl in
    rw (
      same,
      same',
      (==_iff d.address d.address).1 refl,
      (==_iff e.address e.address).1 refl,
      bool_eq_self ((v ==ℤ u) && d.id == e.id),
      bool_eq_self (not ((v ==ℤ u) && d.id == e.id)),
    )

-- `main`.
unfoldable pub proof_error_code :
    (exceptions_enabled : Bool) (first_address second_address first_id second_id : ℕ)
    (first_value second_value : ℤ)
    → Run ⊥ (Unit {0})
unfolding harness_domain check_codes
proof_error_code exceptions_enabled first_address second_address first_id second_id first_value
      second_value =
    do
      first_domain ← harness_domain exceptions_enabled first_address first_id (codes "first")
      second_domain ← harness_domain exceptions_enabled second_address second_id (codes "second")
      check_codes first_value second_value first_domain second_domain
          (record { value = first_value; domain = first_domain })
          (record { value = second_value; domain = second_domain })
          ((first_value ==ℤ second_value) && first_id == second_id)

-- No assertion of the harness fails, in either kind of build, for all values, identifiers and addresses of
-- domains.
pub proof_error_code-done :
    (exceptions_enabled : Bool) (first_address second_address first_id second_id : ℕ)
    (first_value second_value : ℤ)
    → proof_error_code exceptions_enabled first_address second_address first_id second_id
        first_value second_value
      ≡ done tt
unfolding proof_error_code
proof_error_code-done true first_address second_address first_id second_id first_value
      second_value =
    check_codes-done first_value second_value
      (record {
        address = first_address;
        id = first_id;
        name = codes "first";
        converter = some unused_converter;
      })
      (record {
        address = second_address;
        id = second_id;
        name = codes "second";
        converter = some unused_converter;
      })
proof_error_code-done false first_address second_address first_id second_id first_value
      second_value =
    check_codes-done first_value second_value
      (record { address = first_address; id = first_id; name = codes "first"; converter = none })
      (record { address = second_address; id = second_id; name = codes "second"; converter = none })
