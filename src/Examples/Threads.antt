-- ===== src/Examples/Threads.antt =====
-- A thread that registers a logger while another asks for it.
use adaptive_pi.Prelude.{
  ℕ, ◌≡◌, refl, true, false, none, some, [], ◌∷◌, codes, replicate, done, memcpy, bytes_eq, Option,
}
use adaptive_pi.Prelude.Updates.{update}
use adaptive_pi.Log.Level.{k_info}
use adaptive_pi.Log.Logger.{
  Pointer, Logger, make_logger, context_id, context_description, default_threshold,
}
use adaptive_pi.Log.Registry.{Heap, store, filled, matches}
use adaptive_pi.Log.Registry.Threads.{
  Shared, Query, Pc, constructed, entered, joined, headed, asking, walking, decided, leaving,
  answered, idle, System, construct, lock_register, join, set_head, unlock_register, ask, lock_find,
  hit, compare_found, unlock_find, return_found, pick, start_system, Reach, start, later, Steps,
  stay, next,
}
use adaptive_pi.Log.Registry.Chain.{lookup, address}
use adaptive_pi.Log.Registry.Registering.{store_self}
use adaptive_pi.Log.Registry.Threads.Facts.{Inv}
use adaptive_pi.Log.Registry.Threads.Safety.{Reach-Inv}
use adaptive_pi.Log.Registry.Threads.Lasting.{Stands, answered-Stands}
use adaptive_pi.Log.Registry.Threads.Progress.{asking-answered, constructed-published}
use adaptive_pi.Examples.Records.{World, recorder, fixed_provider}
use adaptive_pi.Examples.Registries.{nothing}

abbrev pub net_query : Query
net_query = record { id = codes "NET"; description = codes "Network"; threshold = k_info }

-- The object that the registering thread has made.
abbrev pub made : Logger World
made = record {
  context_id_bytes = codes "NET";
  context_id_size = 3;
  description_bytes = codes "Network";
  description_size = 7;
  threshold = k_info;
  sink = recorder;
  metadata_provider = fixed_provider;
  next = none;
}

pub made_new :
    make_logger
      (filled (replicate 3 0) (codes "NET"))
      3
      (filled (replicate 7 0) (codes "Network"))
      7
      k_info
      recorder
      fixed_provider
    ≡ done made
unfolding make_logger memcpy replicate
made_new = refl

-- The state behind a move of the thread `i` to the place `p`, which leaves `m`.
abbrev pub behind : System World → ℕ → Shared World → Pc → System World
behind s i m p = record { shared = m; pc = update s.pc i p }

abbrev memory : Shared World
memory = record {
  head = none;
  heap = store nothing 100 (some made);
  owner = none;
  stopped = false;
  published = [];
}

-- The thread 1 has made its logger, the thread 2 has called `Find`, and the first takes the mutex.
abbrev built : System World
built = behind (start_system nothing) 1 memory (constructed 100)

abbrev called : System World
called = behind built 2 memory (asking net_query)

abbrev locked : System World
locked = behind called 1 (record memory { owner = some 1 }) (entered 100)

-- It links its logger, publishes it and leaves.
abbrev relinked : Heap World
relinked = store memory.heap 100 (some (record made { next = none }))

abbrev linking : System World
linking = behind locked 1 (record memory { owner = some 1; heap = relinked }) (joined 100)

abbrev pub public : Shared World
public = record {
  head = some 100;
  heap = relinked;
  owner = none;
  stopped = false;
  published = (100, record made { next = none }) ∷ [];
}

abbrev published_it : System World
published_it = behind linking 1 (record public { owner = some 1 }) (headed 100)

abbrev left : System World
left = behind published_it 1 public idle

-- The thread 2 finds it.
abbrev searching : System World
searching = behind left 2 (record public { owner = some 2 }) (walking net_query (some 100))

abbrev found_it : System World
found_it = behind searching 2 (record public { owner = some 2 }) (decided net_query (some 100))

abbrev compared : System World
compared = behind found_it 2 (record public { owner = some 2 }) (leaving net_query (some 100) true)

abbrev pub replied : System World
replied = behind compared 2 public (answered net_query (some 100) true)

called-Reach : Reach recorder fixed_provider nothing called
unfolding replicate
called-Reach =
    later
      (later start (
        pick 1 refl (
          construct (codes "NET") (codes "Network") (replicate 3 0) (replicate 7 0) k_info refl refl
            refl made_new refl)))
      (pick 2 refl ask)

locked-Reach : Reach recorder fixed_provider nothing locked
locked-Reach = later called-Reach (pick 1 refl (lock_register refl))

pub memory_at : memory.heap 100 ≡ some made
memory_at = store_self nothing 100 (some made)

pub relinked_at : relinked 100 ≡ some (record made { next = none })
relinked_at = store_self memory.heap 100 (some (record made { next = none }))

pub replied-Reach : Reach recorder fixed_provider nothing replied
unfolding store matches context_id context_description default_threshold bytes_eq
replied-Reach =
    later
      (later
        (later
          (later
            (later
              (later (later locked-Reach (pick 1 refl (join memory_at)))
                (pick 1 refl (set_head relinked_at)))
              (pick 1 refl unlock_register))
            (pick 2 refl (lock_find refl)))
          (pick 2 refl (hit relinked_at refl)))
        (pick 2 refl compare_found))
      (pick 2 refl unlock_find)

Reach-Inv_example : Inv replied
Reach-Inv_example = Reach-Inv recorder fixed_provider nothing replied-Reach

asking-answered_example :
    (t : System World) × Steps recorder fixed_provider locked t
    × (t.shared.stopped ≡ false)
    × (t.pc 2
        ≡ answered net_query (address (lookup (codes "NET") t.shared.published)) (
            matches t.shared.heap
              (codes "Network")
              k_info
              (address (lookup (codes "NET") t.shared.published))))
asking-answered_example =
    asking-answered recorder fixed_provider nothing 2 net_query locked-Reach refl refl

-- What the threads do behind `replied`: the thread 2 returns, and calls again.
again :
    Steps recorder fixed_provider replied
      (behind (behind replied 2 public idle) 2 public (asking net_query))
again = next (pick 2 refl return_found) (next (pick 2 refl ask) stay)

answered-Stands_example :
    (p : Pointer) × (logger : Logger World) × (some 100 ≡ some p)
    × (context_id logger ≡ codes "NET")
    × (context_description logger ≡ codes "Network")
    × (default_threshold logger ≡ k_info)
    × Stands public p logger
answered-Stands_example =
    answered-Stands recorder fixed_provider nothing 2 net_query (some 100) replied-Reach refl again

constructed-published_example :
    (t : System World) × (link : Option Pointer) × Steps recorder fixed_provider called t
    × (t.shared.stopped ≡ false)
    × (t.pc 1 ≡ idle)
    × (t.shared.head ≡ some 100)
    × Stands t.shared 100 (record made { next = link })
constructed-published_example =
    constructed-published recorder fixed_provider nothing 1 100 made called-Reach refl refl
      memory_at
