-- ===== src/Core/Transfer.antt =====
-- Copy and move construction of ResultStorage and Result (platform/ara-core/include/ara/core/result.h),
-- which construct the members of the new object from those of the old one.
use mathlib.Core.Path.{subst}
use adaptive_pi.Prelude.{
  ℕ, ◌≡◌, refl, Option, none, some, Run, done, throws, terminates, ◌>>=◌, map_run, ◌==◌, arith, ◌⊎◌,
  inl, inr, Bool-cases,
}
use adaptive_pi.Core.Storage.{Variant, result, error, ResultStorage, Holds}

-- `construct_t` and `construct_e` are the copy or move constructors of the payloads.
module _ {T E X : Type 0} (construct_t : T → Run X T) (construct_e : E → Run X E) where
  -- The new variant has the alternative of the old one.
  unfoldable pub transfer_variant : Variant T E → Run X (Variant T E)
  transfer_variant (result t) = map_run result (construct_t t)
  transfer_variant (error e) = map_run error (construct_e e)

  unfoldable pub transfer_slot : Option (Variant T E) → Run X (Option (Variant T E))
  unfolding transfer_variant
  transfer_slot none = done none
  transfer_slot (some v) = map_run some (transfer_variant v)

  -- The two slots in order, then the index.
  unfoldable pub transfer_storage : ResultStorage T E → Run X (ResultStorage T E)
  unfolding transfer_slot
  transfer_storage s = do
    first ← transfer_slot s.first
    second ← transfer_slot s.second
    done (record { first = first; second = second; active = s.active })

-- What the constructors of the payloads make of a payload: its alternative, or what they throw.
abbrev pub copied :
    {T E X : Type 0} → (T → Run X T) → (E → Run X E) → Variant T E → Run X (Variant T E)
copied construct_t construct_e (result t) = map_run result (construct_t t)
copied construct_t construct_e (error e) = map_run error (construct_e e)

-- The outcome of a construction from a storage, by that of its payload.
pub data Transferred {T E X : Type 0}
    : Run X (Variant T E) → Run X (ResultStorage T E) → Type 0 where
  transferred :
      {v : Variant T E} {s : ResultStorage T E} → Holds s v → Transferred (done v) (done s)
  threw : {x : X} → Transferred (throws x) (throws x)
  terminated : Transferred terminates terminates

module _ {T E : Type 0} where
  storage_eq :
      {a b c d : Option (Variant T E)} {m n : ℕ}
      → a ≡ c
      → b ≡ d
      → m ≡ n
      → Path
          (ResultStorage T E)
          (record { first = a; second = b; active = m })
          (record { first = c; second = d; active = n })
  storage_eq e f g = cc

  -- A storage in which one slot holds `v`.
  pub shape :
      (s : ResultStorage T E) (v : Variant T E)
      → Holds s v
      → (s ≡ record { first = some v; second = none; active = 0 })
        ⊎ (s ≡ record { first = none; second = some v; active = 1 })
  shape s v h = elim (Bool-cases (s.active == 0)) [
    | inl e ↦ inl (storage_eq (ground arith) (ground arith) (ground arith))
    | inr e ↦ inr (storage_eq (ground arith) (ground arith) (ground arith))
  ]

module _ {T E X : Type 0} (construct_t : T → Run X T) (construct_e : E → Run X E) where
  first-Transferred :
      (m : Run X (Variant T E))
      → Transferred m
          (map_run some m >>= λ first. done (record { first = first; second = none; active = 0 }))
  first-Transferred (done v') =
      transferred (record { in_array = omega arith; held = refl; spare = refl })
  first-Transferred (throws x) = threw
  first-Transferred terminates = terminated

  second-Transferred :
      (m : Run X (Variant T E))
      → Transferred m
          (map_run some m >>= λ second. done (record { first = none; second = second; active = 1 }))
  second-Transferred (done v') =
      transferred (record { in_array = omega arith; held = refl; spare = refl })
  second-Transferred (throws x) = threw
  second-Transferred terminates = terminated

  transfer_variant-copied :
      (v : Variant T E)
      → transfer_variant construct_t construct_e v ≡ copied construct_t construct_e v
  unfolding transfer_variant
  transfer_variant-copied (result t) = refl
  transfer_variant-copied (error e) = refl

  -- A copy or a move of a storage that holds a payload holds the same alternative, with the payload
  -- that the payload's constructor made; if that throws or terminates, so does the construction.
  pub transfer_storage-Transferred :
      (s : ResultStorage T E) (v : Variant T E)
      → Holds s v
      → Transferred (copied construct_t construct_e v) (transfer_storage construct_t construct_e s)
  unfolding transfer_storage
  transfer_storage-Transferred s v h =
      subst (λ m. Transferred m (transfer_storage construct_t construct_e s))
        (transfer_variant-copied v)
        (elim (shape s v h) [
          | inl e ↦ rw e (first-Transferred (transfer_variant construct_t construct_e v))
          | inr e ↦ rw e (second-Transferred (transfer_variant construct_t construct_e v))
        ])
