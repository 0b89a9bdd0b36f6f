-- ===== src/Redis/LockManager.antt =====
-- packages/shared/src/redis/lock-manager.ts. The two Lua scripts run atomically on the server.
pub mod Exclusion
use task_orchestrator_engine.Prelude.{
  ℕ, Bool, true, false, not, Option, none, some, ◌==◌, if◌then◌else◌,
}
use task_orchestrator_engine.Types.{Ident}
use task_orchestrator_engine.Redis.Server.{Server, is_none}

-- `redis.call("get", KEYS[1]) == ARGV[1]`
abbrev pub is_owner : Option Ident → Ident → Bool
is_owner none executor = false
is_owner (some owner) executor = owner == executor

abbrev pub default_ttl_ms : ℕ
default_ttl_ms = 30000

module _ (redis : Server) where
  open redis use {Store, holder, set_nx, pexpire, del}

  unfoldable pub acquire : Ident → Ident → ℕ → Store → Bool × Store
  acquire task executor ttl_ms s = set_nx task executor ttl_ms s

  unfoldable pub renew : Ident → Ident → ℕ → Store → Bool × Store
  renew task executor ttl_ms s =
      if is_owner (holder s task) executor
      then (let (reply, s') = pexpire task ttl_ms s in (reply == 1, s'))
      else (false, s)

  unfoldable pub release : Ident → Ident → Store → Bool × Store
  release task executor s =
      if is_owner (holder s task) executor
      then (let (reply, s') = del task s in (reply == 1, s'))
      else (false, s)

  unfoldable pub is_held : Ident → Store → Bool
  is_held task s = not (is_none (holder s task))

  unfoldable pub get_owner : Ident → Store → Option Ident
  get_owner task s = holder s task
