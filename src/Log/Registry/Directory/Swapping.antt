-- ===== src/Log/Registry/Directory/Swapping.antt =====
-- The order of registrations in the registry of platform/ara-log/src/logger_registry.cpp.
use adaptive_pi.Prelude.{
  ℕ, ◌+◌, ◌<◌, ◌≡◌, ◌≢◌, refl, sym, ap, ◌∙◌, Option, none, some, List, ◌∷◌, Bytes, Run, done,
  throws, terminates, length, arith,
}
use adaptive_pi.Log.Level.{LogLevel}
use adaptive_pi.Log.Logger.{Pointer}
use adaptive_pi.Log.Registry.{Registry, Answers}
use adaptive_pi.Log.Registry.Chain.{Loggers, Chain}
use adaptive_pi.Log.Registry.Outcome.{granted}
use adaptive_pi.Log.Registry.Directory.{Entry, Directory, enter_comm}
use adaptive_pi.Log.Registry.Directory.Requests.{
  Request, registering, Reply, replies, Supplied, promised, promised_replies, promise_then,
  enter_made, contract, granted_contract,
}
use adaptive_pi.Log.Registry.Directory.Refining.{directory, replies-promised_replies}

-- A registration, with what the library answers.
pub record Registration : Type 0 where
  pub answers : Answers
  pub id : Bytes
  pub description : Bytes
  pub threshold : LogLevel

abbrev pub request : Registration → Request
request q = registering q.answers q.id q.description q.threshold

granted_contract-id :
    (q : Registration) (e : Entry) (o : Option Pointer)
    → (granted_contract q.answers q.id q.description q.threshold o).0 ≡ some e
    → e.id ≡ q.id
granted_contract-id q e none h = cc
granted_contract-id q e (some p) h = ground arith

-- What is entered has the identifier of the registration.
contract-id :
    (q : Registration) (e : Entry)
    → (contract q.answers q.id q.description q.threshold).0 ≡ some e
    → e.id ≡ q.id
unfolding contract
contract-id q e h = granted_contract-id q e (granted q.answers q.id q.description) (ground arith)

enter_made_comm :
    (o o' : Option Entry) (d : Directory)
    → ((e f : Entry) → o ≡ some e → o' ≡ some f → e.id ≢ f.id)
    → enter_made o (enter_made o' d) ≡ enter_made o' (enter_made o d)
enter_made_comm none o' d h = refl
enter_made_comm (some e) none d h = refl
enter_made_comm (some e) (some f) d h = enter_comm e f d (h e f refl refl)

promised_comm :
    (p q : Registration) (d : Directory)
    → p.id ≢ q.id
    → (promised (request p) (promised (request q) d).0).0
      ≡ (promised (request q) (promised (request p) d).0).0
unfolding promised
promised_comm p q d n =
    enter_made_comm _ _ d (λ e f h k same. n (sym (contract-id p e h) ∙ same ∙ contract-id q f k))

promise_then-cons :
    (reply : Run ⊥ Reply) (rest replies : List (Run ⊥ Reply)) (x : Reply)
    → promise_then reply rest ≡ done x ∷ replies
    → (reply ≡ done x) × (rest ≡ replies)
promise_then-cons (done y) rest replies x h = (cc, cc)
promise_then-cons (throws y) rest replies x h = absurd y
promise_then-cons terminates rest replies x h = (cc, cc)

promised_replies-swapped :
    (p q : Registration) (requests : List Request) (d : Directory) (x y : Reply)
    (later : List (Run ⊥ Reply))
    → p.id ≢ q.id
    → promised_replies (request p ∷ request q ∷ requests) d ≡ done x ∷ done y ∷ later
    → promised_replies (request q ∷ request p ∷ requests) d ≡ done y ∷ done x ∷ later
unfolding promised_replies promised
promised_replies-swapped p q requests d x y later n h =
    let (first, rest) = promise_then-cons (promised (request p) d).1 _ (done y ∷ later) x h in
    let (second, last) =
      promise_then-cons (promised (request q) (promised (request p) d).0).1 _ later y rest in
    rw (second, first, promised_comm p q d n, last) (refl)

module _ {W : Type 0} (fuel : ℕ) (p q : Registration) (requests : List Request) (r : Registry W)
    (ls : Loggers W) where
  -- Two registrations of different identifiers that return one after the other, with a logger or
  -- with an error, return the same in the other order, and all later requests have the same replies.
  -- The registry is one of linked loggers, `new` gives what it promises in either order, and the
  -- fuel exceeds the number of loggers and requests.
  pub replies-swapped :
      (x y : Reply) (later : List (Run ⊥ Reply))
      → Chain r.heap r.head ls
      → Supplied (request p ∷ request q ∷ requests) r
      → Supplied (request q ∷ request p ∷ requests) r
      → p.id ≢ q.id
      → length ls + length requests + 2 < fuel
      → replies fuel (request p ∷ request q ∷ requests) r ≡ some (done x ∷ done y ∷ later)
      → replies fuel (request q ∷ request p ∷ requests) r ≡ some (done y ∷ done x ∷ later)
  replies-swapped x y later c s t n h e =
      let first =
        replies-promised_replies fuel (request p ∷ request q ∷ requests) r ls c s (omega arith) in
      let second =
        replies-promised_replies fuel (request q ∷ request p ∷ requests) r ls c t (omega arith) in
      second
      ∙ ap some
          (promised_replies-swapped p q requests (directory ls) x y later n (cc (sym first ∙ e)))
