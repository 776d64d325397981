-- ===== src/Config/Valid.antt =====
-- Which configurations the program starts with.
use mathlib.Core.Path.{subst}
use goqueue.Base.{
  Bool-cases, pos, ◌≤ℤ◌, eq_ℤ_iff, Text, ℕ, ◌≡◌, refl, ◌≢◌, ◌↔◌, inl, inr, true, false, List, [],
  ◌∷◌, arith,
}
use goqueue.Errors.{ok, Result-cases, err≢ok}
use goqueue.Config.{
  AppConfig, Environment, apply_env, no_entries, validate, load, get_worker_pool_config,
}
use goqueue.Worker.{queues_or_default, pool_defaults}

ok_injective {ℓ} : {A : Type ℓ} {x y : A} → ok x ≡ ok y → x ≡ y
ok_injective h = cc h

pub record IsUsable (c : AppConfig) : Type 0 where
  pub public_low : pos 1 ≤ℤ c.server.public_port
  pub public_high : c.server.public_port ≤ℤ pos 65535
  pub private_low : pos 1 ≤ℤ c.server.private_port
  pub private_high : c.server.private_port ≤ℤ pos 65535
  pub ports_differ : c.server.public_port ≢ c.server.private_port
  pub has_addrs : no_entries c.redis.addrs ≡ false
  pub has_workers : c.worker.enabled ≡ true → pos 1 ≤ℤ c.worker.concurrency
  pub has_queues : c.worker.enabled ≡ true → no_entries c.worker.queues ≡ false

validate-IsUsable : (c : AppConfig) → validate c ≡ ok tt → IsUsable c
unfolding validate
validate-IsUsable c h = ground arith

IsUsable-validate : (c : AppConfig) → IsUsable c → validate c ≡ ok tt
unfolding validate
IsUsable-validate c h = elim (Bool-cases c.worker.enabled) [
  | inl e ↦ ground (
    arith,
    e,
    h.has_workers e,
    h.has_queues e,
    h.ports_differ,
    eq_ℤ_iff c.server.public_port c.server.private_port,
  )
  | inr e ↦ ground (arith, e, h.ports_differ, eq_ℤ_iff c.server.public_port c.server.private_port)
]

queues_keep :
    (queues : List (Text × ℕ)) → no_entries queues ≡ false → queues_or_default queues ≡ queues
queues_keep [] h = absurd (ground arith)
queues_keep (q ∷ queues) h = refl

loaded : (e : Environment) (file : AppConfig) {c : AppConfig} → load e (ok file) ≡ ok c → IsUsable c
unfolding load
loaded e file h = elim (Result-cases (validate (apply_env e file))) [
  | inl (u, k) ↦
      subst IsUsable (ok_injective (rw (k, load) at h)) (validate-IsUsable (apply_env e file) k)
  | inr (f, k) ↦ absurd (err≢ok (rw (k, load) at h))
]

pool_keeps :
    (c : AppConfig)
    → IsUsable c
    → c.worker.enabled ≡ true
    → ((pool_defaults (get_worker_pool_config c)).concurrency ≡ c.worker.concurrency)
      × ((pool_defaults (get_worker_pool_config c)).queues ≡ c.worker.queues)
unfolding pool_defaults get_worker_pool_config
pool_keeps c h on =
    (ground (arith, h.has_workers on), queues_keep c.worker.queues (h.has_queues on))

-- Load of a file that reads and parses succeeds exactly where the configuration, with the environment
-- laid over it, has two different ports from 1 to 65535, an address of Redis, and with the worker
-- enabled a positive concurrency and a queue; it gives that configuration then. The pool keeps the
-- concurrency and the queues of such a configuration: none of the pool's defaults replaces them.
pub load_iff :
    (e : Environment) (file : AppConfig)
    → ((load e (ok file) ≡ ok (apply_env e file)) ↔ IsUsable (apply_env e file))
      × ((c : AppConfig)
          → load e (ok file) ≡ ok c
          → c.worker.enabled ≡ true
          → ((pool_defaults (get_worker_pool_config c)).concurrency ≡ c.worker.concurrency)
            × ((pool_defaults (get_worker_pool_config c)).queues ≡ c.worker.queues))
unfolding load apply_env
load_iff e file = (
  (λ h. loaded e file h, λ u. rw (IsUsable-validate (apply_env e file) u, load) refl),
  λ c h on. pool_keeps c (loaded e file h) on,
)
