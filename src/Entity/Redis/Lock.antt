-- ===== src/Entity/Redis/Lock.antt =====
-- wakuwaku-entity/src/redis/collection/lock.rs: `Lock` and `RwLock` of one name. A lock token is a number.
-- The writer key and the key of the sorted set of readers are one state `S`.
pub mod Documented
pub mod Seen
pub mod Readers
pub mod Exclusive
pub mod Steps
pub mod Runs
pub mod Apart
pub mod Reader
pub mod Leases
pub mod Writer
pub mod Holding
mod Examples
pub mod Kept
use wakuwaku.Entity.Redis.{millis}
use wakuwaku.Base.{
  ℕ, suc, ◌+◌, ◌==◌, ltb, Bool, true, false, Option, none, some, is_some_eq, if◌then◌else◌,
}

-- The commands that the scripts call, at a time.
pub record Commands (S : Type 0) : Type 0 where
  -- `GET` and `EXISTS` of the writer key
  pub get : ℕ → S → Option ℕ
  -- `SET key token NX PX ttl` of the writer key
  pub set_nx : ℕ → ℕ → ℕ → S → S × Bool
  -- `DEL` and `PEXPIRE` of the writer key
  pub del : ℕ → S → S × ℕ
  pub pexpire : ℕ → ℕ → S → S × ℕ
  -- `ZREMRANGEBYSCORE readers -inf upto`
  pub zremrangebyscore : ℕ → ℕ → S → S
  pub zcard : ℕ → S → ℕ
  pub zscore : ℕ → ℕ → S → Option ℕ
  -- `ZADD readers score token`, and with `XX`
  pub zadd : ℕ → ℕ → ℕ → S → S
  pub zadd_xx : ℕ → ℕ → ℕ → S → S
  pub zrem : ℕ → ℕ → S → S
  -- `PTTL readers`: nothing for the negative answers
  pub pttl : ℕ → S → Option ℕ
  -- `PEXPIRE readers ttl`
  pub zexpire : ℕ → ℕ → S → S

-- `redis.call('PTTL', ..) < ttl`
abbrev pub is_below : Option ℕ → ℕ → Bool
is_below none ttl = true
is_below (some left) ttl = ltb left ttl

abbrev pub is_some : Option ℕ → Bool
is_some none = false
is_some (some n) = true

module _ {S : Type 0} (redis : Commands S) where
  -- `RELEASE`
  unfoldable pub release : ℕ → ℕ → S → S × ℕ
  release now token s = if is_some_eq (redis.get now s) token then redis.del now s else (s, 0)

  -- `EXTEND`
  unfoldable pub extend : ℕ → ℕ → ℕ → S → S × ℕ
  extend now token ttl s =
      if is_some_eq (redis.get now s) token then redis.pexpire now ttl s else (s, 0)

  -- The readers' key lives as long as the lease that was granted.
  unfoldable pub prolong : ℕ → ℕ → S → S
  prolong now ttl s = if is_below (redis.pttl now s) ttl then redis.zexpire now ttl s else s

  -- `READ_ACQUIRE`
  unfoldable pub read_acquire : ℕ → ℕ → ℕ → S → S × ℕ
  unfolding prolong
  read_acquire now token ttl s = if is_some (redis.get now s) then (s, 0) else (
    prolong now ttl (redis.zadd now (now + ttl) token (redis.zremrangebyscore now now s)),
    1,
  )

  -- `READ_RELEASE` once the score is read
  abbrev pub release_read_of : ℕ → ℕ → S → Option ℕ → S × ℕ
  release_read_of now token s none = (s, 0)
  release_read_of now token s (some expiry) =
      (redis.zrem now token s, if ltb now expiry then 1 else 0)

  -- `READ_RELEASE`
  unfoldable pub read_release : ℕ → ℕ → S → S × ℕ
  read_release now token s = release_read_of now token s (redis.zscore now token s)

  -- `READ_EXTEND` once the score is read
  unfoldable pub extend_read_of : ℕ → ℕ → ℕ → S → Option ℕ → S × ℕ
  unfolding prolong
  extend_read_of now token ttl s none = (s, 0)
  extend_read_of now token ttl s (some expiry) =
      if ltb now expiry
      then (prolong now ttl (redis.zadd_xx now (now + ttl) token s), 1)
      else (s, 0)

  -- `READ_EXTEND`
  unfoldable pub read_extend : ℕ → ℕ → ℕ → S → S × ℕ
  unfolding extend_read_of
  read_extend now token ttl s = extend_read_of now token ttl s (redis.zscore now token s)

  -- The answer of a `SET` with `NX`.
  abbrev pub answer : S × Bool → S × ℕ
  answer (s, b) = (s, if b then 1 else 0)

  -- `WRITE_ACQUIRE`
  unfoldable pub write_acquire : ℕ → ℕ → ℕ → S → S × ℕ
  write_acquire now token ttl s =
      let purged = redis.zremrangebyscore now now s in
      if ltb 0 (redis.zcard now purged)
      then (purged, 0)
      else answer (redis.set_nx now token ttl purged)

  -- `LockAcquire`
  unfoldable pub lock_acquire : ℕ → ℕ → ℕ → S → S × ℕ
  lock_acquire now token ttl s = answer (redis.set_nx now token ttl s)

-- The queries of the module, each with its token, for those that acquire the one that it makes, and the lease, in
-- nanoseconds.
pub data Op : Type 0 where
  try_lock try_read try_write extend_lock extend_read : (token ttl : ℕ) → Op
  release_lock release_read : (token : ℕ) → Op

-- Execution of a query. The script answers 1 where the query outputs its token, or, of a token, `true`.
unfoldable pub run_op : {S : Type 0} → Commands S → ℕ → Op → S → S × ℕ
unfolding lock_acquire read_acquire write_acquire extend read_extend release read_release
run_op redis now (try_lock token ttl) s = lock_acquire redis now token (millis ttl) s
run_op redis now (try_read token ttl) s = read_acquire redis now token (millis ttl) s
run_op redis now (try_write token ttl) s = write_acquire redis now token (millis ttl) s
run_op redis now (extend_lock token ttl) s = extend redis now token (millis ttl) s
run_op redis now (extend_read token ttl) s = read_extend redis now token (millis ttl) s
run_op redis now (release_lock token) s = release redis now token s
run_op redis now (release_read token) s = read_release redis now token s
