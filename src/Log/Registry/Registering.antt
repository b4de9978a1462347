-- ===== src/Log/Registry/Registering.antt =====
-- What Register does to the registry and what it returns.
use mathlib.Core.Path.{fun_ext, subst}
use adaptive_pi.Prelude.{
  ◌≡◌, ◌≤◌, true, inl, inr, refl, sym, ap, Option, none, some, Bytes, done, length, ltb, ltb→lt,
  ◌==◌, arith, Bool-cases,
}
use adaptive_pi.Core.Storage.{make_storage}
use adaptive_pi.Core.Result.Access.{from_value-Holds, from_error-Holds}
use adaptive_pi.Core.Result.{from_value, from_error}
use adaptive_pi.Log.Level.{LogLevel, k_verbose}
use adaptive_pi.Log.Logger.{Pointer, Logger}
use adaptive_pi.Log.Registry.{
  Heap, Registry, Answers, failure, array_size, store, publish, with_logger, with_description,
  with_id, register,
}
use adaptive_pi.Log.Registry.Chain.{Loggers, Chain, linked, Chain-store, has_free}
use adaptive_pi.Log.Registry.Making.{
  linked-Made, constructed, make_logger-constructed, constructed-Made,
}
use adaptive_pi.Log.Registry.Outcome.{
  Provides, Made, Denied, Registered, undefined_level, denied, mutex_broken, published, granted,
}

module _ {W : Type 0} where
  store-deleted :
      (heap : Heap W) (p : Pointer) (logger : Logger W)
      → heap p ≡ none
      → store (store heap p (some logger)) p none ≡ heap
  unfolding store
  store-deleted heap p logger h = fun_ext (λ q. ground arith)

  pub store_self :
      (heap : Heap W) (p : Pointer) (content : Option (Logger W)) → store heap p content p ≡ content
  unfolding store
  store_self heap p content = ground arith

module _ {W : Type 0} (answers : Answers) (id description : Bytes) (threshold : LogLevel)
    (r : Registry W) (ls : Loggers W) where
  refusal-Registered :
      {r' : Registry W}
      → threshold ≤ k_verbose
      → Denied answers id description
      → r' ≡ r
      → Registered answers id description threshold r ls (r', from_error (done failure))
  unfolding from_error make_storage
  refusal-Registered t d e = denied t d e (from_error-Holds {X = ⊥} failure refl)

  published-Registered :
      (p : Pointer) (logger : Logger W)
      → threshold ≤ k_verbose
      → granted answers id description ≡ some p
      → answers.unlock ≡ 0
      → r.heap p ≡ none
      → Chain r.heap r.head ls
      → logger.next ≡ r.head
      → Made id description threshold r logger
      → Registered answers id description threshold r ls
          (record r { heap = store r.heap p (some logger); head = some p }, from_value (done p))
  unfolding from_value make_storage
  published-Registered p logger t g u free c e m =
      published t g u free refl
        (linked (store_self r.heap p (some logger)) (has_free p free c) (
          subst (λ n. Chain (store r.heap p (some logger)) n ls) (sym e)
            (Chain-store p (some logger) (has_free p free c) c)))
        m (from_value-Holds {X = ⊥} p refl)

  publish-Registered :
      (p : Pointer) (logger : Logger W)
      → threshold ≤ k_verbose
      → ((answers.lock == 0) ≡ true → granted answers id description ≡ some p)
      → r.heap p ≡ none
      → Chain r.heap r.head ls
      → Made id description threshold r logger
      → Registered answers id description threshold r ls (publish answers p logger r)
  unfolding publish
  publish-Registered p logger t g free c m = elim (Bool-cases (answers.lock == 0)) [
    | inl e ↦ elim (Bool-cases (answers.unlock == 0)) [
      | inl k ↦
          rw (e, k)
            (published-Registered p (record logger { next = r.head }) t (g e) (ground arith) free c
              refl (linked-Made id description threshold r logger r.head m))
      | inr k ↦ rw (e, k) (mutex_broken t (g e) (ground arith))
    ]
    | inr e ↦ rw e (
        refusal-Registered t (inr (inr (inr (ground arith))))
          (ap (λ h. record r { heap = h }) (store-deleted r.heap p logger free)))
  ]

  with_logger-Registered :
      (o : Option Pointer) (made : Logger W)
      → answers.new_logger ≡ o
      → threshold ≤ k_verbose
      → ((p : Pointer)
          → o ≡ some p
          → (answers.lock == 0) ≡ true
          → granted answers id description ≡ some p)
      → ((p : Pointer) → o ≡ some p → r.heap p ≡ none)
      → Chain r.heap r.head ls
      → Made id description threshold r made
      → Registered answers id description threshold r ls (with_logger answers o (done made) r)
  unfolding with_logger
  with_logger-Registered none made e t g free c m = refusal-Registered t (inr (inr (inl e))) refl
  with_logger-Registered (some p) made e t g free c m =
      publish-Registered p made t (g p refl) (free p refl) c m

  with_description-Registered :
      (id_buffer : Bytes) (o : Option Bytes)
      → answers.new_description (array_size description) ≡ o
      → answers.new_id (array_size id) ≡ some id_buffer
      → length id_buffer ≡ array_size id
      → threshold ≤ k_verbose
      → Provides answers r.heap
      → Chain r.heap r.head ls
      → Registered answers id description threshold r ls
          (with_description answers id description threshold id_buffer o r)
  unfolding with_description
  with_description-Registered id_buffer none e i n t pr c = refusal-Registered t (inr (inl e)) refl
  with_description-Registered id_buffer (some description_buffer) e i n t pr c =
      let made = constructed id description threshold r id_buffer description_buffer in
      subst
        (λ m.
          Registered answers id description threshold r ls
            (with_logger answers answers.new_logger m r))
        (sym (make_logger-constructed id description threshold r id_buffer description_buffer t))
        (with_logger-Registered answers.new_logger made refl t (λ p k l. rw (i, e, k, l) (refl))
          pr.fresh c
          (constructed-Made id description threshold r id_buffer description_buffer n
            (pr.descriptions _ description_buffer e)))

  with_id-Registered :
      (o : Option Bytes)
      → answers.new_id (array_size id) ≡ o
      → threshold ≤ k_verbose
      → Provides answers r.heap
      → Chain r.heap r.head ls
      → Registered answers id description threshold r ls
          (with_id answers id description threshold o r)
  unfolding with_id
  with_id-Registered none e t pr c = refusal-Registered t (inl e) refl
  with_id-Registered (some id_buffer) e t pr c =
      with_description-Registered id_buffer _ refl e (pr.ids _ id_buffer e) t pr c

  -- On a registry of linked loggers, with memory as `new` promises it, `Register` refuses an
  -- undefined threshold by termination. Where an allocation or the lock fails it returns the error
  -- `kOperationFailed` and leaves the registry as it was; a failing unlock terminates. Otherwise
  -- the new logger, made of the arguments, heads the list, all other objects stay in place, and its
  -- address is returned.
  pub register-Registered :
      Provides answers r.heap
      → Chain r.heap r.head ls
      → Registered answers id description threshold r ls
          (register answers id description threshold r)
  unfolding register
  register-Registered pr c = elim (Bool-cases (ltb k_verbose threshold)) [
    | inl e ↦ rw e (undefined_level (ltb→lt _ _ e))
    | inr e ↦ rw e (with_id-Registered _ refl (ground arith) pr c)
  ]
