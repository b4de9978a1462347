-- ===== src/Core/Storage.antt =====
-- ResultStorage of platform/ara-core/include/ara/core/result.h: two slots, of which one is active.
-- `T` and `E` are the types of the value and of the error, `X` that of the exceptions.
use mathlib.Core.Path.{subst, sym}
use adaptive_pi.Prelude.{
  ℕ, ◌+◌, ◌-◌, ◌%◌, ◌^◌, ◌≤◌, ◌≡◌, Option, none, some, Run, done, throws, terminates, ◌>>=◌, ◌==◌,
  if◌then◌else◌, arith,
}

-- `std::variant<T, E>`: the alternative 0 or 1.
pub data Variant (T E : Type 0) : Type 0 where
  result : T → Variant T E
  error : E → Variant T E

pub record ResultStorage (T E : Type 0) : Type 0 where
  pub first : Option (Variant T E)
  pub second : Option (Variant T E)
  pub active : ℕ

module _ {T E : Type 0} where
  abbrev pub variant_index : Variant T E → ℕ
  variant_index (result t) = 0
  variant_index (error e) = 1

  -- `slots_[i]`; the array has the indices 0 and 1.
  abbrev pub slot : ResultStorage T E → ℕ → Option (Variant T E)
  slot s i = if i == 0 then s.first else s.second

  abbrev pub set_slot : ResultStorage T E → ℕ → Option (Variant T E) → ResultStorage T E
  set_slot s i v = if i == 0 then record s { first = v } else record s { second = v }

  -- The constructor fills the slot 0; the construction of the payload may throw.
  unfoldable pub make_storage {ℓ} : {X : Type ℓ} → Run X (Variant T E) → Run X (ResultStorage T E)
  make_storage construct = do
    v ← construct
    done (record { first = some v; second = none; active = 0 })

  -- `1U - active_`, in `std::size_t`.
  abbrev pub next_slot : ResultStorage T E → ℕ
  next_slot s = (1 + 2 ^ 64 - s.active) % 2 ^ 64

  -- What `emplace` does once the payload was constructed in the slot `next`, or was not.
  unfoldable pub settle {ℓ} :
      {X : Type ℓ}
      → ResultStorage T E
      → ℕ
      → Run X (Variant T E)
      → ResultStorage T E × Run X (Unit {0})
  settle s next (done v) =
      (set_slot (record (set_slot s next (some v)) { active = next }) s.active none, done tt)
  settle s next (throws x) = (s, throws x)
  settle s next terminates = (s, terminates)

  -- `emplace<Index>`. The arguments may refer to what the storage holds, so the construction of the payload
  -- is given the storage as it stands then, and leaves the storage that it may have changed.
  -- `std::optional::emplace` first destroys what its slot holds.
  unfoldable pub emplace {ℓ} :
      {X : Type ℓ}
      → (ResultStorage T E → ResultStorage T E × Run X (Variant T E))
      → ResultStorage T E
      → ResultStorage T E × Run X (Unit {0})
  unfolding settle
  emplace construct s =
      let emptied = set_slot s (next_slot s) none in
      let (left, made) = construct emptied in settle left (next_slot s) made

  index_of : Option (Variant T E) → Run ⊥ ℕ
  index_of none = terminates
  index_of (some v) = done (variant_index v)

  -- `index()`.
  unfoldable pub index : ResultStorage T E → Run ⊥ ℕ
  unfolding index_of
  index s = index_of (slot s s.active)

  result_of : Option (Variant T E) → Run ⊥ T
  result_of none = terminates
  result_of (some (result t)) = done t
  result_of (some (error e)) = terminates

  -- `get<0>()`, in its three forms.
  unfoldable pub get_result : ResultStorage T E → Run ⊥ T
  unfolding result_of
  get_result s = result_of (slot s s.active)

  error_of : Option (Variant T E) → Run ⊥ E
  error_of none = terminates
  error_of (some (result t)) = terminates
  error_of (some (error e)) = done e

  -- `get<1>()`, in its three forms.
  unfoldable pub get_error : ResultStorage T E → Run ⊥ E
  unfolding error_of
  get_error s = error_of (slot s s.active)

-- The storage holds `v` in its active slot, and the other slot is empty.
pub record Holds {T E : Type 0} (s : ResultStorage T E) (v : Variant T E) : Type 0 where
  pub in_array : s.active ≤ 1
  pub held : slot s s.active ≡ some v
  pub spare : slot s (1 - s.active) ≡ none

module _ {T E : Type 0} where
  emptied-eq :
      (s : ResultStorage T E) (v : Variant T E) → Holds s v → set_slot s (next_slot s) none ≡ s
  emptied-eq s v h = ground arith

module _ {T E X : Type 0} where
  pub make_storage-Holds :
      (v : Variant T E) {s : ResultStorage T E} → make_storage {X = X} (done v) ≡ done s → Holds s v
  unfolding make_storage
  make_storage-Holds v h = record {
    in_array = ground arith;
    held = ground arith;
    spare = ground arith;
  }

  -- What `emplace` does to a storage that holds `v` behind the construction, by its outcome.
  pub data Emplaced (s : ResultStorage T E) (v : Variant T E)
      : Run X (Variant T E) → ResultStorage T E × Run X (Unit {0}) → Type 0 where
    replaced :
        {v' : Variant T E} {s' : ResultStorage T E}
        → Holds s' v'
        → Emplaced s v (done v') (s', done tt)
    threw : {x : X} → Holds s v → Emplaced s v (throws x) (s, throws x)
    terminated : Holds s v → Emplaced s v terminates (s, terminates)

  settle-Emplaced :
      (s : ResultStorage T E) (v : Variant T E) (c : Run X (Variant T E))
      → Holds s v
      → Emplaced s v c (settle s (next_slot s) c)
  unfolding settle
  settle-Emplaced s v (done v') h =
      replaced (record { in_array = ground arith; held = ground arith; spare = ground arith })
  settle-Emplaced s v (throws x) h = threw h
  settle-Emplaced s v terminates h = terminated h

  -- The payload is constructed while the storage still holds the old one, `v`, which the construction may
  -- change, to `w`, through arguments that refer to it, but which does not switch the slots itself. A
  -- new payload replaces the old one. A construction
  -- that throws leaves the storage as the construction left it: it holds `w`, so that what was changed
  -- is not undone. One that terminates terminates.
  pub emplace-Emplaced :
      (construct : ResultStorage T E → ResultStorage T E × Run X (Variant T E))
      (s : ResultStorage T E) (v w : Variant T E)
      → Holds s v
      → Holds (construct s).0 w
      → (construct s).0.active ≡ s.active
      → Emplaced (construct s).0 w (construct s).1 (emplace construct s)
  unfolding emplace
  emplace-Emplaced construct s v w h k same =
      let (left, made) = construct s in
      subst (λ t. Emplaced left w made (settle (construct t).0 (next_slot s) (construct t).1))
        (sym (emptied-eq s v h))
        (subst (λ a. Emplaced left w made (settle left ((1 + 2 ^ 64 - a) % 2 ^ 64) made)) same
          (settle-Emplaced left w made k))
