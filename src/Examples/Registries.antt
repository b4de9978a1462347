-- ===== src/Examples/Registries.antt =====
-- A registry that serves one logger.
use adaptive_pi.Prelude.{
  ℕ, ◌≡◌, refl, true, ◌&&◌, none, some, [], ◌∷◌, Bytes, codes, done, terminates, replicate,
  length-replicate, length, ◌==◌, if◌then◌else◌, arith, ap, sym, ◌∙◌,
}
use adaptive_pi.Core.Storage.{result}
use adaptive_pi.Core.Result.{value}
use adaptive_pi.Log.Level.{k_info}
use adaptive_pi.Log.Registry.{
  Heap, LoggerCreationResult, Registry, Answers, make_registry, register, find, destroy_registry,
}
use adaptive_pi.Log.Registry.Chain.{Chain, ended, linked, lookup}
use adaptive_pi.Log.Registry.Finding.{answer, find-answer}
use adaptive_pi.Log.Registry.Outcome.{Provides, Registered}
use adaptive_pi.Log.Registry.Registering.{register-Registered}
use adaptive_pi.Log.Registry.Destroying.{without, destroy_registry-without}
use adaptive_pi.Hello.{main}
use adaptive_pi.Hello.Greeting.{Ended, main-Ended}
use adaptive_pi.Examples.Streams.{tiny, tiny-NeverEmpty}
use adaptive_pi.Examples.Records.{stopped_clock, World, recorder, fixed_provider, net}

-- A heap with nothing on it, and a registry that owns nothing.
abbrev pub nothing : Heap World
nothing q = none

abbrev pub unused : Registry World
unused = make_registry recorder fixed_provider nothing

-- A library that has memory, at the address 100, and a mutex that works.
abbrev pub roomy : Answers
roomy = record {
  new_id = λ n. some (replicate n 0);
  new_description = λ n. some (replicate n 0);
  new_logger = some 100;
  lock = 0;
  unlock = 0;
}

pub some-length : (n : ℕ) (array : Bytes) → some (replicate n 0) ≡ some array → length array ≡ n
some-length n array h =
    let e : replicate n 0 ≡ array = cc in ap length (sym e) ∙ length-replicate n 0

pub roomy-Provides : Provides roomy nothing
roomy-Provides = record { ids = some-length; descriptions = some-length; fresh = λ p h. refl }

register-Registered_example :
    Registered roomy
      (codes "NET")
      (codes "Network")
      k_info
      unused
      []
      (register roomy (codes "NET") (codes "Network") k_info unused)
register-Registered_example =
    register-Registered roomy (codes "NET") (codes "Network") k_info unused [] roomy-Provides ended

-- The registry after the registration, and the result that it returned.
abbrev serving : Registry World
serving = (register roomy (codes "NET") (codes "Network") k_info unused).0

abbrev pub created : LoggerCreationResult
created = record { first = some (result 100); second = none; active = 0 }

registered : register roomy (codes "NET") (codes "Network") k_info unused ≡ (serving, done created)
unfolding register adaptive_pi.Core.Storage.make_storage
registered = refl

pub created_value : value created ≡ done 100
unfolding value adaptive_pi.Core.Storage.get_result
created_value = refl

-- A heap on which the logger `net` stands at the address 7, and its registry.
abbrev one : Heap World
one q = if q == 7 then some net else none

abbrev holding_net : Registry World
holding_net = record {
  head = some 7;
  heap = one;
  selected_sink = recorder;
  selected_metadata_provider = fixed_provider;
}

holding_net-Chain : Chain one (some 7) ((7, net) ∷ [])
holding_net-Chain = linked refl refl ended

find-answer_example :
    find 2 roomy (codes "NET") (codes "Network") k_info holding_net
    ≡ some (
        if true && true
        then answer (codes "Network") k_info (lookup (codes "NET") ((7, net) ∷ []))
        else terminates)
find-answer_example =
    find-answer 2 roomy (codes "NET") (codes "Network") k_info holding_net ((7, net) ∷ [])
      holding_net-Chain (omega arith)

destroy_registry-without_example :
    destroy_registry 2 0 holding_net ≡ some (done (without ((7, net) ∷ []) one))
destroy_registry-without_example =
    destroy_registry-without 2 0 holding_net ((7, net) ∷ []) holding_net-Chain (omega arith)

main-Ended_example :
    Ended stopped_clock tiny tiny-NeverEmpty
      (λ m w. w)
      roomy
      roomy
      unused
      []
      (main stopped_clock tiny (λ m w. w) 2 roomy roomy unused [])
main-Ended_example =
    main-Ended stopped_clock tiny tiny-NeverEmpty (λ m w. w) 2 roomy roomy unused [] []
      roomy-Provides ended (omega arith)
