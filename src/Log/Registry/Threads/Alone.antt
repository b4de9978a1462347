-- ===== src/Log/Registry/Threads/Alone.antt =====
-- A thread that no other interrupts does what Register and Find do.
use adaptive_pi.Prelude.{
  ℕ, ◌<◌, ◌≡◌, refl, sym, ap, ◌∙◌, Bool, false, Option, none, some, ◌∷◌, Bytes, length, done, ltb,
  arith,
}
use adaptive_pi.Core.Result.{from_value}
use adaptive_pi.Log.Level.{LogLevel, k_verbose}
use adaptive_pi.Log.Metadata.{MetadataProvider}
use adaptive_pi.Log.Sink.{Sink}
use adaptive_pi.Log.Logger.{Pointer, Logger, make_logger}
use adaptive_pi.Log.Registry.{
  Registry, Answers, array_size, filled, store, matches, register, publish, with_logger,
  with_description, with_id, find, returned,
}
use adaptive_pi.Log.Registry.Chain.{lookup, address, walk-lookup}
use adaptive_pi.Log.Registry.Threads.{Shared, Query, idle, asking, answered, construct}
use adaptive_pi.Log.Registry.Registering.{store_self}
use adaptive_pi.Log.Registry.Threads.Facts.{IsList}
use adaptive_pi.Log.Registry.Threads.Running.{Course, goes, asking_run, constructed_run}

module _ {W : Type 0} (sink : Sink W) (provider : MetadataProvider W) where
  -- The shared state as the registry of the sequential model.
  abbrev pub registry_of : Shared W → Registry W
  registry_of m = record {
    head = m.head;
    heap = m.heap;
    selected_sink = sink;
    selected_metadata_provider = provider;
  }

  find-returned :
      (fuel : ℕ) (answers : Answers) (m : Shared W) (q : Query)
      → answers.lock ≡ 0
      → answers.unlock ≡ 0
      → IsList m
      → length m.published < fuel
      → find fuel answers q.id q.description q.threshold (registry_of m)
        ≡ some (
            returned
              (matches m.heap q.description q.threshold (address (lookup q.id m.published)))
              (address (lookup q.id m.published)))
  unfolding find
  find-returned fuel answers m q l u c h = rw (l, u, walk-lookup fuel q.id c h)

  -- A call of Find that nothing interrupts, on a free mutex that works: the thread comes to its last test with a
  -- logger, or none, and a Boolean, and the sequential Find returns what the last test makes of these. The
  -- fuel exceeds the number of loggers.
  pub find-Course :
      (i fuel : ℕ) (answers : Answers) (m : Shared W) (q : Query)
      → answers.lock ≡ 0
      → answers.unlock ≡ 0
      → m.owner ≡ none
      → m.stopped ≡ false
      → IsList m
      → length m.published < fuel
      → (found : Option Pointer) × (is_match : Bool) × (find fuel answers q.id q.description
            q.threshold
            (registry_of m)
          ≡ some (returned is_match found))
        × Course sink provider i m
            (asking q)
            (record m { owner = none })
            (answered q found is_match)
  find-Course i fuel answers m q l u free on c h = (
    address (lookup q.id m.published),
    matches m.heap q.description q.threshold (address (lookup q.id m.published)),
    find-returned fuel answers m q l u c h,
    asking_run sink provider m q free on c,
  )

  register-publish :
      (answers : Answers) (id description id_buffer description_buffer : Bytes)
      (threshold : LogLevel) (p : Pointer) (logger : Logger W) (r : Registry W)
      → ltb k_verbose threshold ≡ false
      → answers.new_id (array_size id) ≡ some id_buffer
      → answers.new_description (array_size description) ≡ some description_buffer
      → answers.new_logger ≡ some p
      → make_logger
          (filled id_buffer id)
          (length id)
          (filled description_buffer description)
          (length description)
          threshold
          r.selected_sink
          r.selected_metadata_provider
        ≡ done logger
      → register answers id description threshold r ≡ publish answers p logger r
  unfolding register with_id with_description with_logger
  register-publish answers id description a b threshold p logger r v d e n k = rw (v, d, e, n, k)

  store_twice :
      (heap : Pointer → Option (Logger W)) (p : Pointer) (a b : Option (Logger W)) (x : Pointer)
      → store (store heap p a) p b x ≡ store heap p b x
  unfolding store
  store_twice heap p a b x = ground arith

  -- A call of Register that nothing interrupts, on a mutex that is free and works, with memory: the thread comes back
  -- with the list and the heap that the sequential Register leaves, which returns the address of the new
  -- object.
  pub register-Course :
      (i : ℕ) (answers : Answers) (m : Shared W)
      (id description id_buffer description_buffer : Bytes) (threshold : LogLevel) (p : Pointer)
      (logger : Logger W)
      → ltb k_verbose threshold ≡ false
      → answers.new_id (array_size id) ≡ some id_buffer
      → length id_buffer ≡ array_size id
      → answers.new_description (array_size description) ≡ some description_buffer
      → length description_buffer ≡ array_size description
      → answers.new_logger ≡ some p
      → m.heap p ≡ none
      → make_logger
          (filled id_buffer id)
          (length id)
          (filled description_buffer description)
          (length description)
          threshold
          sink
          provider
        ≡ done logger
      → answers.lock ≡ 0
      → answers.unlock ≡ 0
      → m.owner ≡ none
      → m.stopped ≡ false
      → (after : Shared W) × Course sink provider i m idle after idle
        × (after.head ≡ (register answers id description threshold (registry_of m)).0.head)
        × ((x : Pointer)
            → after.heap x ≡ (register answers id description threshold (registry_of m)).0.heap x)
        × ((register answers id description threshold (registry_of m)).1 ≡ from_value (done p))
  unfolding publish
  register-Course i answers m id description a b threshold p logger v d ld e le n free k l u
        open_mutex on =
      let r = registry_of m in
      let published = register-publish answers id description a b threshold p logger r v d e n k in
      let made : Shared W = record m { heap = store m.heap p (some logger) } in
      (
        record made {
          head = some p;
          heap = store made.heap p (some (record logger { next = m.head }));
          owner = none;
          published = (p, record logger { next = m.head }) ∷ m.published;
        },
        goes (construct id description a b threshold v ld le k free) refl on (
            constructed_run sink provider made p logger open_mutex on
              (store_self m.heap p (some logger))),
        sym (ap (λ q. q.0.head) published ∙ rw l),
        λ x. store_twice m.heap p (some logger) _ x ∙ sym (ap (λ q. q.0.heap x) published ∙ rw l),
        ap (λ q. q.1) published ∙ rw (l, u),
      )
