-- ===== src/Entity/Redis.antt =====
-- wakuwaku-entity/src/redis: data structures that Lua scripts keep in Redis. The commands that a script
-- calls are parameters, which take the server's time in milliseconds, as the scripts read it. An
-- expiry is a number of milliseconds.
pub mod Lock
pub mod TokenBucket
use wakuwaku.Base.{ℕ, ◌/◌, min, max, u64_max}

-- `millis`, of a duration in nanoseconds.
unfoldable pub millis : ℕ → ℕ
millis duration = max (min (duration / 1000000) u64_max) 1
