-- ===== src/Examples/Histories.antt =====
-- What the threads of the example did, in order, and what they leave.
use adaptive_pi.Prelude.{ℕ, ◌≡◌, refl, arith, some, [], ◌∷◌, codes, replicate, done, bytes_eq}
use adaptive_pi.Log.Level.{k_info}
use adaptive_pi.Log.Logger.{Pointer, context_id, context_description, default_threshold}
use adaptive_pi.Log.Registry.{store, matches, register, destroy_registry}
use adaptive_pi.Log.Registry.Threads.{
  Shared, idle, System, construct, lock_register, join, set_head, unlock_register, ask, lock_find,
  hit, compare_found, unlock_find, return_found, pick, start_system, later,
}
use adaptive_pi.Examples.Records.{World, recorder, fixed_provider}
use adaptive_pi.Core.Result.{from_value}
use adaptive_pi.Log.Registry.Threads.Releasing.{destroy_registry-restores}
use adaptive_pi.Log.Registry.Threads.Running.{Course}
use adaptive_pi.Log.Registry.Threads.Alone.{registry_of, register-Course}
use adaptive_pi.Examples.Registries.{nothing, roomy}
use adaptive_pi.Examples.Threads.{
  net_query, made, made_new, behind, public, replied, replied-Reach, memory_at, relinked_at,
}
use adaptive_pi.Log.Registry.Directory.{Entry}
use adaptive_pi.Log.Registry.Threads.History.{
  Events, making, registers, serves, History, begins, follows,
}
use adaptive_pi.Log.Registry.Threads.Linearizing.{Ordered, History-Ordered}

abbrev net_entry : Entry
net_entry = record {
  id = codes "NET";
  description = codes "Network";
  threshold = k_info;
  logger = 100;
}

-- The thread 1 registers, then the thread 2 is served.
abbrev done_in_order : Events
done_in_order =
    (2, serves net_query (done 100)) ∷ (1, registers net_entry) ∷ (1, making net_entry) ∷ []

replied-History : History recorder fixed_provider nothing done_in_order replied
unfolding replicate store matches context_id context_description default_threshold bytes_eq
replied-History =
    follows 2
      (follows 2
        (follows 2
          (follows 2
            (follows 1
              (follows 1
                (follows 1
                  (follows 1
                    (follows 2
                      (follows 1 begins refl (
                        construct (codes "NET") (codes "Network") (replicate 3 0) (replicate 7 0)
                          k_info refl refl refl made_new refl))
                      refl ask)
                    refl (lock_register refl))
                  refl (join memory_at))
                refl (set_head relinked_at))
              refl unlock_register)
            refl (lock_find refl))
          refl (hit relinked_at refl))
        refl compare_found)
      refl unlock_find

History-Ordered_example : Ordered recorder fixed_provider done_in_order replied
History-Ordered_example = History-Ordered recorder fixed_provider nothing replied-History

register-Course_example :
    (after : Shared World) × Course recorder fixed_provider 3
      (start_system nothing).shared
      idle
      after
      idle
    × (after.head
        ≡ (register roomy
            (codes "NET")
            (codes "Network")
            k_info
            (registry_of recorder fixed_provider (start_system nothing).shared)).0.head)
    × ((x : Pointer)
        → after.heap x
          ≡ (register roomy
                (codes "NET")
                (codes "Network")
                k_info
                (registry_of recorder fixed_provider (start_system nothing).shared)).0.heap
              x)
    × ((register roomy
          (codes "NET")
          (codes "Network")
          k_info
          (registry_of recorder fixed_provider (start_system nothing).shared)).1
        ≡ from_value (done 100))
unfolding replicate
register-Course_example =
    register-Course recorder fixed_provider 3 roomy (start_system nothing).shared (codes "NET")
      (codes "Network") (replicate 3 0) (replicate 7 0) k_info 100 made refl refl refl refl refl
      refl refl made_new refl refl refl refl

-- The thread 2 has returned: all threads are outside of the registry.
abbrev returned_it : System World
returned_it = behind replied 2 public idle

returned_it-idle : (i : ℕ) → returned_it.pc i ≡ idle
returned_it-idle i = ground arith

destroy_registry-restores_example :
    destroy_registry 2 0 (registry_of recorder fixed_provider returned_it.shared)
    ≡ some (done nothing)
destroy_registry-restores_example =
    destroy_registry-restores recorder fixed_provider nothing 2 0
      (later replied-Reach (pick 2 refl return_found)) returned_it-idle (omega arith)
