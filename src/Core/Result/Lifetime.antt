-- ===== src/Core/Result/Lifetime.antt =====
-- The life of a Result of platform/ara-core/include/ara/core/result.h: whatever is done to it, it
-- behaves as the one payload that it holds.
use mathlib.Core.Path.{subst}
use adaptive_pi.Prelude.{
  some, arith, ◌≡◌, refl, ap, List, [], ◌∷◌, Run, done, throws, terminates, ◌>>=◌, map_run,
  if◌then◌else◌,
}
use adaptive_pi.Core.Storage.{
  set_slot, Variant, result, error, Holds, Emplaced, replaced, threw, terminated,
}
use adaptive_pi.Core.Transfer.{Transferred, transferred, threw, terminated}
use adaptive_pi.Core.Moving.{move_variant, move_storage, move_storage-Moved}
use adaptive_pi.Core.Result.{Result, has_value, value, error_value, emplace_value, emplace_error}
use adaptive_pi.Core.Result.Access.{Holds-Answers, emplace_value-Emplaced, emplace_error-Emplaced}

-- What a program does to a result: it emplaces a value or an error, whose construction may read and
-- change what the result holds, or moves from it.
pub data Change (T E X : Type 0) : Type 0 where
  to_value : (Variant T E → Variant T E × Run X T) → Change T E X
  to_error : (Variant T E → Variant T E × Run X E) → Change T E X
  moving : (T → T × Run X T) → (E → E × Run X E) → Change T E X

module _ {T E : Type 0} where
  -- What a result holds, by its queries.
  unfoldable pub contents : Result T E → Run ⊥ (Variant T E)
  contents r = do
    has ← has_value r
    if has then map_run result (value r) else map_run error (error_value r)

  contents_lem : (r : Result T E) (v : Variant T E) → Holds r v → contents r ≡ done v
  unfolding contents
  contents_lem r (result t) h = let a = Holds-Answers r (result t) h in rw (a.has, a.gives) (refl)
  contents_lem r (error e) h = let a = Holds-Answers r (error e) h in rw (a.has, a.gives) (refl)

-- A program goes on behind an exception, which it catches; behind a termination it does not.
abbrev pub go_on :
    {S X : Type 0}
    → S
    → Run X (Unit {0})
    → S × List (Run X (Unit {0}))
    → S × List (Run X (Unit {0}))
go_on left (done u) rest = (rest.0, done u ∷ rest.1)
go_on left (throws x) rest = (rest.0, throws x ∷ rest.1)
go_on left terminates rest = (left, terminates ∷ [])

module _ {T E X : Type 0} where
  -- A construction with arguments that refer to the payload of a result: it finds there what the
  -- queries give, and leaves in its place what it made of it.
  referring :
      {A : Type 0}
      → (Variant T E → Variant T E × Run X A)
      → Result T E
      → Run ⊥ (Variant T E)
      → Result T E × Run X A
  referring construct r (done v) =
      let (w, made) = construct v in (set_slot r r.active (some w), made)
  referring construct r (throws x) = absurd x
  referring construct r terminates = (r, terminates)

  -- A change, as the code of Result makes it.
  unfoldable pub change : Change T E X → Result T E → Result T E × Run X (Unit {0})
  unfolding contents referring
  change (to_value construct) r = emplace_value (λ s. referring construct s (contents s)) r
  change (to_error construct) r = emplace_error (λ s. referring construct s (contents s)) r
  change (moving move_t move_e) r =
      let (left, new) = move_storage move_t move_e r in (left, map_run (λ _. tt) new)

  -- The payload behind an emplacement, and its outcome.
  abbrev pub settled : Variant T E → Run X (Variant T E) → Variant T E × Run X (Unit {0})
  settled v (done v') = (v', done tt)
  settled v (throws x) = (v, throws x)
  settled v terminates = (v, terminates)

  -- A change of the payload itself.
  unfoldable pub payload_change : Change T E X → Variant T E → Variant T E × Run X (Unit {0})
  payload_change (to_value construct) v =
      let (w, made) = construct v in settled w (map_run result made)
  payload_change (to_error construct) v =
      let (w, made) = construct v in settled w (map_run error made)
  payload_change (moving move_t move_e) v =
      let (left, new) = move_variant move_t move_e v in (left, map_run (λ _. tt) new)

  Emplaced-settled :
      {r : Result T E} {v : Variant T E} {made : Run X (Variant T E)}
      {after : Result T E × Run X (Unit {0})}
      → Emplaced r v made after
      → Holds after.0 (settled v made).0 × (after.1 ≡ (settled v made).1)
  Emplaced-settled (replaced k) = (k, refl)
  Emplaced-settled (threw k) = (k, refl)
  Emplaced-settled (terminated k) = (k, refl)

  Transferred-outcome :
      (new : Run X (Variant T E)) (made : Run X (Result T E))
      → Transferred new made
      → map_run {B = Unit {0}} (λ _. tt) made ≡ map_run (λ _. tt) new
  Transferred-outcome new made (transferred k) = refl
  Transferred-outcome new made threw = refl
  Transferred-outcome new made terminated = refl

  referring-Holds :
      {A : Type 0} (construct : Variant T E → Variant T E × Run X A) (r : Result T E)
      (v : Variant T E)
      → Holds r v
      → Holds (referring construct r (contents r)).0 (construct v).0
        × ((referring construct r (contents r)).0.active ≡ r.active)
        × ((referring construct r (contents r)).1 ≡ (construct v).1)
  unfolding referring
  referring-Holds construct r v h = rw (contents_lem r v h) (
    record {
      in_array = ground (arith, h.in_array);
      held = ground arith;
      spare = ground (arith, h.spare);
    },
    ground arith,
    refl,
  )

  change-payload_change :
      (c : Change T E X) (r : Result T E) (v : Variant T E)
      → Holds r v
      → Holds (change c r).0 (payload_change c v).0 × ((change c r).1 ≡ (payload_change c v).1)
  unfolding change payload_change
  change-payload_change (to_value construct) r v h =
      let aliased = λ (s : Result T E). referring construct s (contents s) in
      let (k, same, made) = referring-Holds construct r v h in
      subst
        (λ o.
          Holds (emplace_value aliased r).0 (settled (construct v).0 (map_run result o)).0
          × ((emplace_value aliased r).1 ≡ (settled (construct v).0 (map_run result o)).1))
        made (Emplaced-settled (emplace_value-Emplaced aliased r v (construct v).0 h k same))
  change-payload_change (to_error construct) r v h =
      let aliased = λ (s : Result T E). referring construct s (contents s) in
      let (k, same, made) = referring-Holds construct r v h in
      subst
        (λ o.
          Holds (emplace_error aliased r).0 (settled (construct v).0 (map_run error o)).0
          × ((emplace_error aliased r).1 ≡ (settled (construct v).0 (map_run error o)).1))
        made (Emplaced-settled (emplace_error-Emplaced aliased r v (construct v).0 h k same))
  change-payload_change (moving move_t move_e) r v h =
      let m = move_storage-Moved move_t move_e r v h in (m.keeps, Transferred-outcome _ _ m.makes)

  -- Changes one after the other: what they leave, and their outcomes.
  unfoldable pub changes : List (Change T E X) → Result T E → Result T E × List (Run X (Unit {0}))
  changes [] r = (r, [])
  changes (c ∷ cs) r = go_on (change c r).0 (change c r).1 (changes cs (change c r).0)

  unfoldable pub payload_changes :
      List (Change T E X) → Variant T E → Variant T E × List (Run X (Unit {0}))
  payload_changes [] v = (v, [])
  payload_changes (c ∷ cs) v =
      go_on (payload_change c v).0 (payload_change c v).1
        (payload_changes cs (payload_change c v).0)

  go_on-Holds :
      (r : Result T E) (v : Variant T E) (outcome : Run X (Unit {0}))
      (rest : Result T E × List (Run X (Unit {0}))) (rest' : Variant T E × List (Run X (Unit {0})))
      → Holds r v
      → Holds rest.0 rest'.0 × (rest.1 ≡ rest'.1)
      → Holds (go_on r outcome rest).0 (go_on v outcome rest').0
        × ((go_on r outcome rest).1 ≡ (go_on v outcome rest').1)
  go_on-Holds r v (done u) rest rest' h (k, e) = (k, ap (λ l. done u ∷ l) e)
  go_on-Holds r v (throws x) rest rest' h (k, e) = (k, ap (λ l. throws x ∷ l) e)
  go_on-Holds r v terminates rest rest' h (k, e) = (h, refl)

  -- Whatever emplacements and moves a program makes on a result, in any order, with payload
  -- constructors that read and change the payload of the result and may throw, be caught, or terminate:
  -- it holds at each time the one payload that the changes made of the first, and each change has
  -- the outcome of its payload.
  pub changes-payload_changes :
      (cs : List (Change T E X)) (r : Result T E) (v : Variant T E)
      → Holds r v
      → Holds (changes cs r).0 (payload_changes cs v).0
        × ((changes cs r).1 ≡ (payload_changes cs v).1)
  unfolding changes payload_changes
  changes-payload_changes [] r v h = (h, refl)
  changes-payload_changes (c ∷ cs) r v h =
      let (k, e) = change-payload_change c r v h in
      subst
        (λ o.
          Holds (go_on (change c r).0 (change c r).1 (changes cs (change c r).0)).0
            (go_on (payload_change c v).0 o (payload_changes cs (payload_change c v).0)).0
          × ((go_on (change c r).0 (change c r).1 (changes cs (change c r).0)).1
              ≡ (go_on (payload_change c v).0 o (payload_changes cs (payload_change c v).0)).1))
        e
        (go_on-Holds (change c r).0 (payload_change c v).0 (change c r).1 _ _ k
          (changes-payload_changes cs (change c r).0 (payload_change c v).0 k))
