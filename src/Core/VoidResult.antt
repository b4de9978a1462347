-- ===== src/Core/VoidResult.antt =====
-- Result<void, E> of platform/ara-core/include/ara/core/result.h: a success without a value.
use adaptive_pi.Prelude.{
  ◌≡◌, Bool, true, false, Run, done, terminates, ◌>>=◌, noexcept, map_run, ◌==◌, if◌then◌else◌,
}
use adaptive_pi.Core.ErrorDomain.{
  Converter, ErrorCode, throw_as_exception, handed_over, throw_as_exception_lem,
}
use adaptive_pi.Core.Storage.{
  Variant, result, error, ResultStorage, Holds, make_storage, emplace, index, get_error,
}

-- The value alternative is `std::monostate`.
abbrev pub VoidResult : (E : Type 0) → Type 0
VoidResult E = ResultStorage (Unit {0}) E

module _ {E : Type 0} where
  unfoldable pub void_from_value : {X : Type 0} → Run X (VoidResult E)
  void_from_value = make_storage (done (result tt))

  -- `FromError` and the constructors from an error.
  unfoldable pub void_from_error : {X : Type 0} → Run X E → Run X (VoidResult E)
  void_from_error construct = make_storage (map_run error construct)

  unfoldable pub void_emplace_value : {X : Type 0} → VoidResult E → VoidResult E × Run X (Unit {0})
  void_emplace_value r = emplace (λ s. (s, done (result tt))) r

  unfoldable pub void_emplace_error :
      {X : Type 0}
      → (VoidResult E → VoidResult E × Run X E)
      → VoidResult E
      → VoidResult E × Run X (Unit {0})
  void_emplace_error construct r =
      emplace (λ s. let (left, made) = construct s in (left, map_run error made)) r

  unfoldable pub void_has_value : VoidResult E → Run ⊥ Bool
  void_has_value r = do i ← index r; done (i == 0)

  -- `Value` checks that the result is a success.
  unfoldable pub void_value : VoidResult E → Run ⊥ (Unit {0})
  void_value r = do has ← void_has_value r; if has then done tt else terminates

  -- `Error`, in its two forms.
  unfoldable pub void_error : VoidResult E → Run ⊥ E
  void_error r = do has ← void_has_value r; if has then terminates else get_error r

module _ {X : Type 0} (call : Converter → ErrorCode → Run X (Unit {0})) where
  unfoldable pub void_throw_if_error : VoidResult ErrorCode → Run X (Unit {0})
  void_throw_if_error r = do
    has ← noexcept (void_has_value r)
    if has
        then done tt
        else do e ← noexcept (get_error r); never ← throw_as_exception call e.domain e; absurd never

  unfoldable pub void_value_or_throw : VoidResult ErrorCode → Run X (Unit {0})
  unfolding void_throw_if_error
  void_value_or_throw r = void_throw_if_error r

  -- The queries of a success, and the outcome of a failure: the error, termination or the throw of the domain.
  pub VoidAnswers : VoidResult ErrorCode → Variant (Unit {0}) ErrorCode → Type 0
  VoidAnswers r (result u) =
      (void_has_value r ≡ done true)
      × (void_value r ≡ done tt)
      × (void_error r ≡ terminates)
      × (void_value_or_throw r ≡ done tt)
  VoidAnswers r (error e) =
      (void_has_value r ≡ done false)
      × (void_value r ≡ terminates)
      × (void_error r ≡ done e)
      × (void_value_or_throw r ≡ handed_over call e.domain.converter e)

  -- A success answers that it is one, and `Error` terminates; a failure gives its error, `Value`
  -- terminates, and `ValueOrThrow` calls the converter of the error's domain and throws what that
  -- throws; it terminates where the domain has none, or where the converter returns or terminates.
  pub Holds-VoidAnswers :
      (r : VoidResult ErrorCode) (v : Variant (Unit {0}) ErrorCode) → Holds r v → VoidAnswers r v
  unfolding VoidAnswers void_has_value void_value void_error void_value_or_throw index get_error
  Holds-VoidAnswers r (result u) h = (rw h.held, rw h.held, rw h.held, rw h.held)
  Holds-VoidAnswers r (error e) h =
      (rw h.held, rw h.held, rw h.held, rw h.held (throw_as_exception_lem call e.domain e))
