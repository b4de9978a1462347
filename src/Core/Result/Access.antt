-- ===== src/Core/Result/Access.antt =====
-- What the queries of a Result answer, by what it holds.
use adaptive_pi.Prelude.{◌≡◌, refl, true, false, Run, done, throws, terminates, ◌>>=◌, map_run, ◌∙◌}
use adaptive_pi.Core.ErrorDomain.{
  Converter, ErrorCode, throw_as_exception, handed_over, throw_as_exception_lem,
}
use adaptive_pi.Core.Storage.{
  Variant, result, error, Holds, make_storage-Holds, Emplaced, emplace-Emplaced, index, get_result,
  get_error,
}
use adaptive_pi.Core.Result.{
  Result, from_value, from_error, emplace_value, emplace_error, has_value, value, error_value,
  value_or_throw,
}

-- The queries answer as for a value `t`: the error is out of reach.
pub record AnswersValue {T E : Type 0} (r : Result T E) (t : T) : Type 0 where
  pub has : has_value r ≡ done true
  pub gives : value r ≡ done t
  pub refuses : error_value r ≡ terminates

pub record AnswersError {T E : Type 0} (r : Result T E) (e : E) : Type 0 where
  pub has : has_value r ≡ done false
  pub gives : error_value r ≡ done e
  pub refuses : value r ≡ terminates

abbrev pub Answers : {T E : Type 0} → Result T E → Variant T E → Type 0
Answers r (result t) = AnswersValue r t
Answers r (error e) = AnswersError r e

module _ {T E : Type 0} where
  -- For a result that holds a value `HasValue` is true, `Value` gives it and `Error` terminates;
  -- for one that holds an error `HasValue` is false, `Error` gives it and `Value` terminates.
  pub Holds-Answers : (r : Result T E) (v : Variant T E) → Holds r v → Answers r v
  unfolding has_value value error_value index get_result get_error
  Holds-Answers r (result t) h = record { has = rw h.held; gives = rw h.held; refuses = rw h.held }
  Holds-Answers r (error e) h = record { has = rw h.held; gives = rw h.held; refuses = rw h.held }

  -- Emplacing a value leaves a result that holds it, or, if the construction throws, the result as the
  -- construction left it; the construction may read and change what the result holds.
  pub emplace_value-Emplaced :
      {X : Type 0} (construct : Result T E → Result T E × Run X T) (r : Result T E)
      (v w : Variant T E)
      → Holds r v
      → Holds (construct r).0 w
      → (construct r).0.active ≡ r.active
      → Emplaced (construct r).0 w (map_run result (construct r).1) (emplace_value construct r)
  unfolding emplace_value
  emplace_value-Emplaced construct r v w h k same =
      emplace-Emplaced (λ s. let (left, made) = construct s in (left, map_run result made)) r v w h
        k same

  pub emplace_error-Emplaced :
      {X : Type 0} (construct : Result T E → Result T E × Run X E) (r : Result T E)
      (v w : Variant T E)
      → Holds r v
      → Holds (construct r).0 w
      → (construct r).0.active ≡ r.active
      → Emplaced (construct r).0 w (map_run error (construct r).1) (emplace_error construct r)
  unfolding emplace_error
  emplace_error-Emplaced construct r v w h k same =
      emplace-Emplaced (λ s. let (left, made) = construct s in (left, map_run error made)) r v w h k
        same

  -- A result of either kind is made holding what it was made of.
  pub from_value-Holds :
      {X : Type 0} (t : T) {r : Result T E}
      → from_value {X = X} (done t) ≡ done r
      → Holds r (result t)
  unfolding from_value
  from_value-Holds t h = make_storage-Holds (result t) h

  pub from_error-Holds :
      {X : Type 0} (e : E) {r : Result T E}
      → from_error {X = X} (done e) ≡ done r
      → Holds r (error e)
  unfolding from_error
  from_error-Holds e h = make_storage-Holds (error e) h

never_returns :
    {T X : Type 0} (m : Run X ⊥) (k : Unit {0} → Run X T)
    → ((m >>= λ never. absurd never) >>= k) ≡ (m >>= λ never. absurd never)
never_returns (done n) k = absurd n
never_returns (throws x) k = refl
never_returns terminates k = refl

-- The outcome of an access to a value, or to an error, which is handed over to the converter of its domain.
abbrev pub or_throw :
    {T X : Type 0} → (Converter → ErrorCode → Run X (Unit {0})) → Variant T ErrorCode → Run X T
or_throw call (result t) = done t
or_throw call (error e) = handed_over call e.domain.converter e

module _ {T X : Type 0} (call : Converter → ErrorCode → Run X (Unit {0})) where
  -- `ValueOrThrow` gives the value that is held. Of an error that is held it calls the converter of the
  -- domain, and throws what that throws; where the domain has none, or where the converter returns or
  -- terminates, the program terminates.
  pub value_or_throw-or_throw :
      (r : Result T ErrorCode) (v : Variant T ErrorCode)
      → Holds r v
      → value_or_throw call r ≡ or_throw call v
  unfolding value_or_throw has_value value index get_result get_error
  value_or_throw-or_throw r (result t) h = rw h.held
  value_or_throw-or_throw r (error e) h = rw h.held (
      never_returns (throw_as_exception call e.domain e) _ ∙ throw_as_exception_lem call e.domain e)
