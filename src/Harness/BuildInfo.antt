-- ===== src/Harness/BuildInfo.antt =====
-- apps/platform-test-service/proofs/proof_build_info.cpp.
use adaptive_pi.Prelude.{
  ℕ, zero, suc, ◌-◌, ◌≡◌, ap, ◌∙◌, Bool, true, false, Option, none, some, [], ◌∷◌, ◌++◌, Bytes,
  codes, length, Run, done, ◌>>◌, ltb, ◌==◌, if◌then◌else◌, arith, Bool-cases, inl, inr,
}
use adaptive_pi.Service.{application_name, version}
use adaptive_pi.Harness.{assert}

-- The arrays of the string literals, with the null character at their end.
abbrev expected_name : Bytes
expected_name = codes "platform-test-service" ++ 0 ∷ []

abbrev expected_version : Bytes
expected_version = codes "0.2.0" ++ 0 ∷ []

-- The element at an index, where there is one.
unfoldable pub get : Bytes → ℕ → Option ℕ
get [] i = none
get (c ∷ s) zero = some c
get (c ∷ s) (suc i) = get s i

abbrev same_element : Option ℕ → Option ℕ → Bool
same_element (some a) (some b) = a == b
same_element a b = false

-- The comparison of the characters at an index inside of the view.
check_at : ℕ → Bytes → Bytes → Run ⊥ (Unit {0})
unfolding get
check_at index view expected =
    if ltb index (length view)
    then assert (same_element (get view index) (get expected index))
    else done tt

-- `main`.
unfoldable pub proof_build_info : (index : ℕ) → Run ⊥ (Unit {0})
unfolding check_at
proof_build_info index = do
  assert (length application_name == length expected_name - 1)
  assert (length version == length expected_version - 1)
  check_at index application_name expected_name
  check_at index version expected_version

same_get :
    (s t : Bytes) (i : ℕ) → ltb i (length s) ≡ true → same_element (get s i) (get (s ++ t) i) ≡ true
unfolding get
same_get [] t i h = absurd (ground arith)
same_get (c ∷ s) t zero h = ground arith
same_get (c ∷ s) t (suc i) h = same_get s t i (ground arith)

check_at-done : (index : ℕ) (s t : Bytes) → check_at index s (s ++ t) ≡ done tt
unfolding check_at
check_at-done index s t = elim (Bool-cases (ltb index (length s))) [
  | inl e ↦ rw (e, same_get s t index e)
  | inr e ↦ rw e
]

-- No assertion of the harness fails, for every index: name and version have the expected lengths, and the
-- expected character at each place.
pub proof_build_info-done : (index : ℕ) → proof_build_info index ≡ done tt
unfolding proof_build_info
proof_build_info-done index =
    ap (λ r. r >> check_at index version expected_version)
      (check_at-done index application_name (0 ∷ []))
    ∙ check_at-done index version (0 ∷ [])
