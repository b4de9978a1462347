-- ===== src/Log/Registry/Destroying.antt =====
-- What the destructor of the registry leaves of the heap.
use mathlib.Core.Path.{fun_ext}
use adaptive_pi.Prelude.{
  ℕ, suc, zero, ◌≡◌, ◌<◌, refl, ap, ◌∙◌, Option, none, some, ◌∷◌, done, terminates, length, ◌==◌,
  if◌then◌else◌, arith,
}
use adaptive_pi.Log.Logger.{Pointer, Logger}
use adaptive_pi.Log.Registry.{Heap, Registry, store, delete_all, destroy_registry}
use adaptive_pi.Log.Registry.Chain.{Loggers, Chain, ended, linked, has, Chain-store}

module _ {W : Type 0} where
  -- The heap in which the addresses of the loggers are free, and no others have changed.
  abbrev pub without : Loggers W → Heap W → Heap W
  without ls heap q = if has q ls then none else heap q

  without-store :
      (ls : Loggers W) (heap : Heap W) (p : Pointer) (logger : Logger W)
      → without ls (store heap p none) ≡ without ((p, logger) ∷ ls) heap
  unfolding store
  without-store ls heap p logger = fun_ext (λ q. ground arith)

  delete_all-without :
      (fuel : ℕ) {heap : Heap W} {current : Option Pointer} {ls : Loggers W}
      → Chain heap current ls
      → length ls < fuel
      → delete_all fuel heap current ≡ some (without ls heap)
  unfolding delete_all
  delete_all-without zero c h = absurd (omega arith)
  delete_all-without (suc fuel) ended h = refl
  delete_all-without (suc fuel) {heap} (linked {p = p} {logger = logger} {ls = ls} e out c) h =
      rw e (
        delete_all-without fuel (Chain-store p none out c) (omega arith)
        ∙ ap some (without-store ls heap p logger))

  -- On a registry of linked loggers, with fuel beyond their number, the destructor ends: the
  -- addresses of the loggers are free and no other object has changed, unless the destruction of
  -- the mutex fails, which terminates the program.
  pub destroy_registry-without :
      (fuel status : ℕ) (r : Registry W) (ls : Loggers W)
      → Chain r.heap r.head ls
      → length ls < fuel
      → destroy_registry fuel status r
        ≡ some (if status == 0 then done (without ls r.heap) else terminates)
  unfolding destroy_registry
  destroy_registry-without fuel status r ls c h = rw (delete_all-without fuel c h)
