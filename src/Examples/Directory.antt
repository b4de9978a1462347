-- ===== src/Examples/Directory.antt =====
-- Requests to a registry of two loggers, in either order.
use mathlib.Core.Path.{subst}
use adaptive_pi.Prelude.{
  ◌≡◌, ◌≢◌, true, false, if◌then◌else◌, bytes_eq, bytes_eq_iff, refl, ap, ◌∙◌, List, some, [], ◌∷◌,
  codes, done, arith,
}
use adaptive_pi.Log.Level.{k_info, k_warn}
use adaptive_pi.Log.Registry.{Registry, Answers, register, store}
use adaptive_pi.Log.Registry.Chain.{ended}
use adaptive_pi.Log.Registry.Outcome.{Provides}
use adaptive_pi.Log.Registry.Directory.Requests.{
  Request, finding, Reply, created, found, perform, replies, Supplied, promised_replies,
}
use adaptive_pi.Log.Registry.Directory.Refining.{directory, replies-promised_replies}
use adaptive_pi.Log.Registry.Directory.Swapping.{Registration, request, replies-swapped}
use adaptive_pi.Examples.Records.{World}
use adaptive_pi.Examples.Registries.{unused, roomy, roomy-Provides, some-length}

abbrev net_registration : Registration
net_registration = record {
  answers = roomy;
  id = codes "NET";
  description = codes "Network";
  threshold = k_info;
}

-- A library that has memory at the address 200.
abbrev roomy_above : Answers
roomy_above = record roomy { new_logger = some 200 }

abbrev app_registration : Registration
app_registration = record {
  answers = roomy_above;
  id = codes "APP";
  description = codes "Application";
  threshold = k_warn;
}

abbrev ask_net : Request
ask_net = finding roomy (codes "NET") (codes "Network") k_info

abbrev net_first : List Request
net_first = request net_registration ∷ request app_registration ∷ ask_net ∷ []

abbrev app_first : List Request
app_first = request app_registration ∷ request net_registration ∷ ask_net ∷ []

above-Provides :
    Provides roomy_above (register roomy (codes "NET") (codes "Network") k_info unused).0.heap
unfolding register store
above-Provides = record {
  ids = some-length;
  descriptions = some-length;
  fresh = λ p h. ground arith;
}

below-Provides :
    Provides roomy (register roomy_above (codes "APP") (codes "Application") k_warn unused).0.heap
unfolding register store
below-Provides = record {
  ids = some-length;
  descriptions = some-length;
  fresh = λ p h. ground arith;
}

net_first-Supplied : Supplied net_first unused
net_first-Supplied = (roomy-Provides, (above-Provides, tt))

app_first-Supplied : Supplied app_first unused
app_first-Supplied = (
  record { ids = some-length; descriptions = some-length; fresh = λ p h. refl },
  (below-Provides, tt),
)

replies-promised_replies_example :
    replies 4 net_first unused ≡ some (promised_replies net_first (directory {W = World} []))
replies-promised_replies_example =
    replies-promised_replies 4 net_first unused [] ended net_first-Supplied (omega arith)

-- The directory finds the first of the two loggers.
promised_first :
    promised_replies net_first (directory {W = World} [])
    ≡ done (created 100) ∷ done (created 200) ∷ done (found 100) ∷ []
unfolding promised_replies adaptive_pi.Log.Registry.Directory.Requests.promised
    adaptive_pi.Log.Registry.Directory.Requests.contract
    adaptive_pi.Log.Registry.Directory.last_entry adaptive_pi.Log.Registry.Directory.enter
    adaptive_pi.Log.Registry.Directory.newest bytes_eq
promised_first = refl

apart : codes "NET" ≢ codes "APP"
unfolding bytes_eq
apart h =
    let same : false ≡ true = (bytes_eq_iff (codes "NET") (codes "APP")).1 h in
    absurd (subst (λ b. if b then ⊥ else Unit {0}) same tt)

replies-swapped_example :
    replies 4 app_first unused
    ≡ some (done (created 200) ∷ done (created 100) ∷ done (found 100) ∷ [])
replies-swapped_example =
    replies-swapped 4 net_registration app_registration (ask_net ∷ []) unused [] (created 100)
      (created 200) (done (found 100) ∷ []) ended net_first-Supplied app_first-Supplied apart
      (omega arith) (replies-promised_replies_example ∙ ap some promised_first)
