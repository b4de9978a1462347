-- ===== src/Log/Registry/Directory/Requests.antt =====
-- The requests of a client of the registry, as platform/ara-log/src/logger_registry.cpp serves them
-- and as a directory would.
use adaptive_pi.Prelude.{
  ℕ, ◌&&◌, Option, none, some, List, [], ◌∷◌, Bytes, Run, done, throws, terminates, map_run, ◌>>=◌,
  ltb, ◌==◌, bytes_eq, if◌then◌else◌,
}
use adaptive_pi.Core.ErrorDomain.{ErrorCode}
use adaptive_pi.Core.Result.{has_value, value, error_value}
use adaptive_pi.Log.Level.{LogLevel, k_verbose}
use adaptive_pi.Log.Logger.{Pointer}
use adaptive_pi.Log.Registry.{LoggerCreationResult, Registry, Answers, failure, register, find}
use adaptive_pi.Log.Registry.Outcome.{Provides, granted}
use adaptive_pi.Log.Registry.Directory.{Entry, Directory, last_entry, enter}

-- A call of `Register` or `Find`, with what the library answers meanwhile.
pub data Request : Type 0 where
  registering : Answers → (id description : Bytes) → LogLevel → Request
  finding : Answers → (id description : Bytes) → LogLevel → Request

pub data Reply : Type 0 where
  created : Pointer → Reply
  refused : ErrorCode → Reply
  found : Pointer → Reply

-- What a caller learns of the result of `Register` by its queries.
unfoldable pub inspect : LoggerCreationResult → Run ⊥ Reply
inspect res = do
  has ← has_value res
  if has then map_run created (value res) else map_run refused (error_value res)

-- The replies of a run end where the program is terminated.
abbrev pub reply_then : Run ⊥ Reply → Option (List (Run ⊥ Reply)) → Option (List (Run ⊥ Reply))
reply_then (done reply) none = none
reply_then (done reply) (some replies) = some (done reply ∷ replies)
reply_then (throws x) rest = absurd x
reply_then terminates rest = some (terminates ∷ [])

module _ {W : Type 0} where
  abbrev pub answer_find : Registry W → Option (Run ⊥ Pointer) → Option (Registry W × Run ⊥ Reply)
  answer_find r none = none
  answer_find r (some outcome) = some (r, map_run found outcome)

  unfoldable pub perform : (fuel : ℕ) → Request → Registry W → Option (Registry W × Run ⊥ Reply)
  perform fuel (registering answers id description threshold) r =
      let (left, outcome) = register answers id description threshold r in
      some (left, outcome >>= inspect)
  perform fuel (finding answers id description threshold) r =
      answer_find r (find fuel answers id description threshold r)

  abbrev pub reply_and :
      Option (Registry W × Run ⊥ Reply)
      → (Registry W → Option (List (Run ⊥ Reply)))
      → Option (List (Run ⊥ Reply))
  reply_and none go_on = none
  reply_and (some (left, reply)) go_on = reply_then reply (go_on left)

  -- The replies of the code to requests in order; each loop of `Find` has the same fuel.
  unfoldable pub replies : (fuel : ℕ) → List Request → Registry W → Option (List (Run ⊥ Reply))
  replies fuel [] r = some []
  replies fuel (request ∷ requests) r =
      reply_and (perform fuel request r) (λ left. replies fuel requests left)

  -- At each registration `new` gives what it promises.
  abbrev pub Supplied : List Request → Registry W → Type 0
  Supplied [] r = Unit
  Supplied (registering answers id description threshold ∷ requests) r =
      Provides answers r.heap × Supplied requests (register answers id description threshold r).0
  Supplied (finding answers id description threshold ∷ requests) r = Supplied requests r

-- What a registration for which the library gives a logger at an address enters, and its reply.
abbrev pub granted_contract :
    Answers → Bytes → Bytes → LogLevel → Option Pointer → Option Entry × Run ⊥ Reply
granted_contract answers id description threshold none = (none, done (refused failure))
granted_contract answers id description threshold (some p) = (
  some (record { id = id; description = description; threshold = threshold; logger = p }),
  if answers.unlock == 0 then done (created p) else terminates,
)

-- What a registration enters and its reply hang on the arguments and the library alone.
unfoldable pub contract : Answers → Bytes → Bytes → LogLevel → Option Entry × Run ⊥ Reply
contract answers id description threshold =
    if ltb k_verbose threshold
    then (none, terminates)
    else granted_contract answers id description threshold (granted answers id description)

abbrev pub enter_made : Option Entry → Directory → Directory
enter_made none d = d
enter_made (some e) d = enter e d

-- The logger of an entry, if the entry is as asked for.
abbrev pub serve : Bytes → LogLevel → Option Entry → Run ⊥ Pointer
serve description threshold none = terminates
serve description threshold (some e) =
    if bytes_eq e.description description && e.threshold == threshold
    then done e.logger
    else terminates

unfoldable pub promised : Request → Directory → Directory × Run ⊥ Reply
promised (registering answers id description threshold) d =
    let (made, reply) = contract answers id description threshold in (enter_made made d, reply)
promised (finding answers id description threshold) d = (
  d,
  map_run found (
      if answers.lock == 0 && answers.unlock == 0
      then serve description threshold (last_entry id d)
      else terminates),
)

abbrev pub promise_then : Run ⊥ Reply → List (Run ⊥ Reply) → List (Run ⊥ Reply)
promise_then (done reply) rest = done reply ∷ rest
promise_then (throws x) rest = absurd x
promise_then terminates rest = terminates ∷ []

-- The replies of a directory to requests in order.
unfoldable pub promised_replies : List Request → Directory → List (Run ⊥ Reply)
promised_replies [] d = []
promised_replies (request ∷ requests) d =
    promise_then (promised request d).1 (promised_replies requests (promised request d).0)
