-- ===== src/Config.antt =====
-- pkg/infrastructure/config/config.go and providers.go. The YAML file is read by a library: what Unmarshal leaves of
-- the defaults is an argument of `load`. The environment is a function of the variable's name, which gives the
-- empty text where it is not set. Parsers stands for strconv.Atoi and strconv.ParseBool.
pub mod Valid
use goqueue.Base.{
  ◌==◌, if◌then◌else◌, ℤ, pos, ltb_ℤ, eq_ℤ, Text, bytes, is_empty, text_eq, ℕ, ◌*◌, Bool, true,
  false, ◌&&◌, ◌||◌, not, Option, none, some, List, [], ◌∷◌, ◌++◌,
}
use goqueue.Errors.{GoError, invalid, Result, ok, err, ◌>>=◌, ◌>>◌, reject_if}
use goqueue.Strings.{trim_space, to_lower}
use goqueue.Retry.{Duration, second}
use goqueue.Worker.{PoolConfig}
use goqueue.Scheduler.{SchedulerConfig}

pub record ServerConfig : Type 0 where
  pub name : Text
  pub version : Text
  pub public_port : ℤ
  pub private_port : ℤ
  pub read_timeout : Duration
  pub write_timeout : Duration
  pub shutdown_timeout : Duration

pub record LoggerConfig : Type 0 where
  pub level : Text

pub record RedisConfig : Type 0 where
  pub addrs : List Text
  pub username : Text
  pub password : Text
  pub db : ℤ
  pub namespace : Text
  pub pool_size : ℤ
  pub min_idle_conns : ℤ
  pub dial_timeout : Duration
  pub read_timeout : Duration
  pub write_timeout : Duration

pub record WorkerConfig : Type 0 where
  pub enabled : Bool
  pub concurrency : ℤ
  pub queues : List (Text × ℕ)
  pub poll_interval : Duration
  pub shutdown_timeout : Duration
  pub lease_duration : Duration

pub record SweepConfig : Type 0 where
  pub enabled : Bool
  pub promote_interval : Duration
  pub reclaim_interval : Duration
  pub janitor_interval : Duration
  pub metrics_interval : Duration
  pub batch_limit : ℤ

pub record JobConfig : Type 0 where
  pub completed_retention : Duration
  pub idempotency_ttl : Duration

pub record AppConfig : Type 0 where
  pub env : Text
  pub server : ServerConfig
  pub logger : LoggerConfig
  pub redis : RedisConfig
  pub worker : WorkerConfig
  pub scheduler : SweepConfig
  pub job : JobConfig

-- `Default`
unfoldable pub default_config : AppConfig
default_config = record {
  env = bytes "local";
  server = record {
    name = bytes "goqueue";
    version = bytes "1.0.0";
    public_port = pos 8080;
    private_port = pos 9090;
    read_timeout = pos (15 * second);
    write_timeout = pos (30 * second);
    shutdown_timeout = pos (20 * second);
  };
  logger = record { level = bytes "info" };
  redis = record {
    addrs = bytes "127.0.0.1:6379" ∷ [];
    username = [];
    password = [];
    db = pos 0;
    namespace = bytes "goqueue";
    pool_size = pos 20;
    min_idle_conns = pos 4;
    dial_timeout = pos (5 * second);
    read_timeout = pos (3 * second);
    write_timeout = pos (3 * second);
  };
  worker = record {
    enabled = true;
    concurrency = pos 10;
    queues = (bytes "critical", 6) ∷ (bytes "default", 3) ∷ (bytes "low", 1) ∷ [];
    poll_interval = pos 500_000_000;
    shutdown_timeout = pos (30 * second);
    lease_duration = pos (60 * second);
  };
  scheduler = record {
    enabled = true;
    promote_interval = pos second;
    reclaim_interval = pos (30 * second);
    janitor_interval = pos (60 * second);
    metrics_interval = pos (5 * second);
    batch_limit = pos 500;
  };
  job = record {
    completed_retention = pos (3600 * second);
    idempotency_ttl = pos (24 * 3600 * second);
  };
}

-- The environment behind the prefix GOQUEUE_, and the two parsers.
pub record Environment : Type 0 where
  pub getenv : Text → Text
  pub atoi : Text → Option ℤ
  pub parse_bool : Text → Option Bool

abbrev env_prefix : Text
env_prefix = bytes "GOQUEUE_"

-- strings.Split(raw, ",")
unfoldable pub split_commas : Text → List Text
split_commas [] = [] ∷ []
split_commas (c ∷ rest) = elim (split_commas rest) [
  | [] ↦ (c ∷ []) ∷ []
  | part ∷ parts ↦ if c == b',' then [] ∷ part ∷ parts else (c ∷ part) ∷ parts
]

-- The loop over the parts: blank ones are dropped.
unfoldable pub trimmed_parts : List Text → List Text
trimmed_parts [] = []
trimmed_parts (p ∷ parts) =
    let rest = trimmed_parts parts in if is_empty (trim_space p) then rest else trim_space p ∷ rest

abbrev or_keep : List Text → List Text → List Text
or_keep [] addrs = addrs
or_keep (a ∷ given) addrs = a ∷ given

module _ (e : Environment) where
  unfoldable pub env_string : Text → Text → Text
  env_string target key = let v = e.getenv (env_prefix ++ key) in if is_empty v then target else v

  unfoldable pub env_int : ℤ → Text → ℤ
  env_int target key =
      let raw = e.getenv (env_prefix ++ key) in
      if is_empty raw then target else elim (e.atoi raw) [ none ↦ target | some v ↦ v ]

  unfoldable pub env_bool : Bool → Text → Bool
  env_bool target key =
      let raw = e.getenv (env_prefix ++ key) in
      if is_empty raw then target else elim (e.parse_bool raw) [ none ↦ target | some v ↦ v ]

  unfoldable pub env_addrs : List Text → List Text
  unfolding trimmed_parts split_commas
  env_addrs addrs =
      let raw = e.getenv (env_prefix ++ bytes "REDIS_ADDRS") in
      if is_empty raw then addrs else or_keep (trimmed_parts (split_commas raw)) addrs

  -- `applyEnv`
  unfoldable pub apply_env : AppConfig → AppConfig
  unfolding env_string env_int env_bool env_addrs
  apply_env c = record c {
    env = env_string c.env (bytes "ENV");
    logger = record { level = env_string c.logger.level (bytes "LOG_LEVEL") };
    server = record c.server {
      public_port = env_int c.server.public_port (bytes "PUBLIC_PORT");
      private_port = env_int c.server.private_port (bytes "PRIVATE_PORT");
    };
    redis = record c.redis {
      addrs = env_addrs c.redis.addrs;
      username = env_string c.redis.username (bytes "REDIS_USERNAME");
      password = env_string c.redis.password (bytes "REDIS_PASSWORD");
      namespace = env_string c.redis.namespace (bytes "REDIS_NAMESPACE");
      db = env_int c.redis.db (bytes "REDIS_DB");
    };
    worker = record c.worker {
      enabled = env_bool c.worker.enabled (bytes "WORKER_ENABLED");
      concurrency = env_int c.worker.concurrency (bytes "WORKER_CONCURRENCY");
    };
    scheduler = record c.scheduler {
      enabled = env_bool c.scheduler.enabled (bytes "SCHEDULER_ENABLED");
    };
  }

abbrev pub not_a_port : ℤ → Bool
not_a_port p = not (ltb_ℤ (pos 0) p) || ltb_ℤ (pos 65535) p

abbrev pub no_entries {ℓ} : {A : Type ℓ} → List A → Bool
no_entries [] = true
no_entries (a ∷ rest) = false

abbrev invalid_config : Text → GoError
invalid_config message = invalid (bytes "invalid_config") message

-- `Validate`
unfoldable pub validate : AppConfig → Result (Unit {0})
validate c = do
  reject_if (not_a_port c.server.public_port)
      (invalid_config (bytes "server.public_port must be between 1 and 65535"))
  reject_if (not_a_port c.server.private_port)
      (invalid_config (bytes "server.private_port must be between 1 and 65535"))
  reject_if (eq_ℤ c.server.public_port c.server.private_port)
      (invalid_config (bytes "server.public_port and server.private_port must differ"))
  reject_if (no_entries c.redis.addrs) (invalid_config (bytes "redis.addrs must not be empty"))
  reject_if (c.worker.enabled && not (ltb_ℤ (pos 0) c.worker.concurrency))
      (invalid_config (bytes "worker.concurrency must be greater than 0"))
  reject_if (c.worker.enabled && no_entries c.worker.queues)
      (invalid_config (bytes "worker.queues must not be empty when the worker is enabled"))
  ok tt

-- `Load`: what the file gives over the defaults, or the error of reading or parsing it; then the environment.
unfoldable pub load : Environment → Result AppConfig → Result AppConfig
unfolding apply_env validate
load e (err failure) = err failure
load e (ok from_file) = elim (validate (apply_env e from_file)) [
  | err failure ↦ err failure
  | ok u ↦ ok (apply_env e from_file)
]

-- `IsProduction`
unfoldable pub is_production : AppConfig → Bool
is_production c =
    let env = to_lower c.env in
    text_eq env (bytes "prod")
    || text_eq env (bytes "production")
    || text_eq env (bytes "stg")
    || text_eq env (bytes "staging")

-- `GetWorkerPoolConfig` and `GetSchedulerConfig`
unfoldable pub get_worker_pool_config : AppConfig → PoolConfig
get_worker_pool_config c = record {
  concurrency = c.worker.concurrency;
  queues = c.worker.queues;
  poll_interval = c.worker.poll_interval;
  shutdown_timeout = c.worker.shutdown_timeout;
  lease_duration = c.worker.lease_duration;
}

unfoldable pub get_scheduler_config : AppConfig → SchedulerConfig
get_scheduler_config c = record {
  promote_interval = c.scheduler.promote_interval;
  reclaim_interval = c.scheduler.reclaim_interval;
  janitor_interval = c.scheduler.janitor_interval;
  metrics_interval = c.scheduler.metrics_interval;
  batch_limit = c.scheduler.batch_limit;
}
