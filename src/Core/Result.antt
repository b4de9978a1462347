-- ===== src/Core/Result.antt =====
-- Result<T, E> of platform/ara-core/include/ara/core/result.h.
pub mod Access
pub mod Lifetime
use adaptive_pi.Prelude.{
  Bool, true, false, Run, done, throws, terminates, ◌>>=◌, noexcept, map_run, ◌==◌, if◌then◌else◌,
}
use adaptive_pi.Core.ErrorDomain.{Converter, ErrorCode, throw_as_exception}
use adaptive_pi.Core.Storage.{
  Variant, result, error, ResultStorage, make_storage, emplace, index, get_result, get_error,
}

-- `Result` has the storage as its only member.
abbrev pub Result : (T E : Type 0) → Type 0
Result T E = ResultStorage T E

module _ {T E : Type 0} where
  -- `FromValue` and the constructor from a value, whose payload is constructed by `construct`.
  unfoldable pub from_value : {X : Type 0} → Run X T → Run X (Result T E)
  from_value construct = make_storage (map_run result construct)

  -- `FromError` and the constructors from an error.
  unfoldable pub from_error : {X : Type 0} → Run X E → Run X (Result T E)
  from_error construct = make_storage (map_run error construct)

  -- `EmplaceValue`; the arguments may refer to what the result holds, and change it.
  unfoldable pub emplace_value :
      {X : Type 0}
      → (Result T E → Result T E × Run X T)
      → Result T E
      → Result T E × Run X (Unit {0})
  emplace_value construct r =
      emplace (λ s. let (left, made) = construct s in (left, map_run result made)) r

  unfoldable pub emplace_error :
      {X : Type 0}
      → (Result T E → Result T E × Run X E)
      → Result T E
      → Result T E × Run X (Unit {0})
  emplace_error construct r =
      emplace (λ s. let (left, made) = construct s in (left, map_run error made)) r

  -- `HasValue` and `operator bool`.
  unfoldable pub has_value : Result T E → Run ⊥ Bool
  has_value r = do i ← index r; done (i == 0)

  -- `Value`, in its three forms.
  unfoldable pub value : Result T E → Run ⊥ T
  value r = get_result r

  -- `Error`, in its two forms.
  unfoldable pub error_value : Result T E → Run ⊥ E
  error_value r = do has ← has_value r; if has then terminates else get_error r

module _ {T X : Type 0} (call : Converter → ErrorCode → Run X (Unit {0})) where
  unfoldable pub throw_if_error : Result T ErrorCode → Run X (Unit {0})
  throw_if_error r = do
    has ← noexcept (has_value r)
    if has
        then done tt
        else do e ← noexcept (get_error r); never ← throw_as_exception call e.domain e; absurd never

  -- `ValueOrThrow`, in its three forms.
  unfoldable pub value_or_throw : Result T ErrorCode → Run X T
  unfolding throw_if_error
  value_or_throw r = do _ ← throw_if_error r; noexcept (value r)
