-- ===== src/Core/Moving.antt =====
-- What the move constructors of ResultStorage and Result leave of the object that is moved from
-- (platform/ara-core/include/ara/core/result.h).
use adaptive_pi.Prelude.{
  ℕ, arith, ◌≡◌, refl, Option, none, some, Run, done, throws, terminates, map_run, inl, inr,
}
use adaptive_pi.Core.Storage.{Variant, result, error, ResultStorage, Holds}
use adaptive_pi.Core.VoidResult.{VoidResult}
use adaptive_pi.Core.Transfer.{Transferred, shape, transferred, threw, terminated}

-- What a move leaves of the source, whose active slot is `active`, and its outcome, by those of
-- the payload.
pub record Moved {T E X : Type 0} (active : ℕ) (left : Variant T E) (new : Run X (Variant T E))
    (moved : ResultStorage T E × Run X (ResultStorage T E)) : Type 0 where
  pub keeps : Holds moved.0 left
  pub same_slot : moved.0.active ≡ active
  pub makes : Transferred new moved.1

module _ {T E : Type 0} (v : Variant T E) where
  holds_first : Holds (record { first = some v; second = none; active = 0 }) v
  holds_first = record { in_array = omega arith; held = refl; spare = refl }

  holds_second : Holds (record { first = none; second = some v; active = 1 }) v
  holds_second = record { in_array = omega arith; held = refl; spare = refl }

-- The move constructors of the payloads: what each leaves of its argument, and what it makes.
module _ {T E X : Type 0} (move_t : T → T × Run X T) (move_e : E → E × Run X E) where
  unfoldable pub move_variant : Variant T E → Variant T E × Run X (Variant T E)
  move_variant (result t) = let (left, new) = move_t t in (result left, map_run result new)
  move_variant (error e) = let (left, new) = move_e e in (error left, map_run error new)

  -- An optional that is moved from stays engaged.
  unfoldable pub move_slot :
      Option (Variant T E) → Option (Variant T E) × Run X (Option (Variant T E))
  unfolding move_variant
  move_slot none = (none, done none)
  move_slot (some v) = let (left, new) = move_variant v in (some left, map_run some new)

  -- The second slot is moved only after the first; the index is copied.
  move_second :
      ResultStorage T E
      → Run X (Option (Variant T E))
      → ResultStorage T E × Run X (ResultStorage T E)
  unfolding move_slot
  move_second s (done first) =
      let (left, new) = move_slot s.second in
      (
        record s { second = left },
        map_run (λ second. record { first = first; second = second; active = s.active }) new,
      )
  move_second s (throws x) = (s, throws x)
  move_second s terminates = (s, terminates)

  unfoldable pub move_storage : ResultStorage T E → ResultStorage T E × Run X (ResultStorage T E)
  unfolding move_second
  move_storage s =
      let (left, new) = move_slot s.first in move_second (record s { first = left }) new

  first-Moved :
      (left : Variant T E) (new : Run X (Variant T E))
      → Moved 0 left new
          (move_second (record { first = some left; second = none; active = 0 }) (map_run some new))
  unfolding move_second move_slot
  first-Moved left (done new) = record {
    keeps = holds_first left;
    same_slot = refl;
    makes = transferred (holds_first new);
  }
  first-Moved left (throws x) = record { keeps = holds_first left; same_slot = refl; makes = threw }
  first-Moved left terminates = record {
    keeps = holds_first left;
    same_slot = refl;
    makes = terminated;
  }

  second_made :
      (new : Run X (Variant T E))
      → Transferred new (
          map_run
            (λ second. record { first = none; second = second; active = 1 })
            (map_run some new))
  second_made (done new) = transferred (holds_second new)
  second_made (throws x) = threw
  second_made terminates = terminated

  second-Moved :
      (left : Variant T E) (new : Run X (Variant T E))
      → Moved 1 left new (
        record { first = none; second = some left; active = 1 },
        map_run (λ second. record { first = none; second = second; active = 1 }) (map_run some new),
      )
  second-Moved left new = record {
    keeps = holds_second left;
    same_slot = refl;
    makes = second_made new;
  }

  pub move_storage-Moved :
      (s : ResultStorage T E) (v : Variant T E)
      → Holds s v
      → Moved s.active (move_variant v).0 (move_variant v).1 (move_storage s)
  unfolding move_storage move_second move_slot
  move_storage-Moved s v h = elim (shape s v h) [
    | inl e ↦ rw e (first-Moved (move_variant v).0 (move_variant v).1)
    | inr e ↦ rw e (second-Moved (move_variant v).0 (move_variant v).1)
  ]

-- The move constructor of Result<void, E>, whose value alternative is an empty object.
unfoldable pub move_void_result :
    {E X : Type 0} → (E → E × Run X E) → VoidResult E → VoidResult E × Run X (VoidResult E)
unfolding move_storage
move_void_result move_e r = move_storage (λ u. (u, done u)) move_e r
