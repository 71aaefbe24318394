-- ===== src/Entity/Redis/TokenBucket.antt =====
-- wakuwaku-entity/src/redis/collection/token_bucket_limiter.rs: the bucket of one name. The numbers of
-- Lua, which are doubles, and their rounding arithmetic are parameters. The bucket's key is a state `S`.
pub mod Levels
pub mod Refill
pub mod Admitted
mod Examples
use wakuwaku.Base.{
  ℕ, suc, ◌+◌, ◌-◌, ◌*◌, ◌/◌, ◌==◌, min, max, ltb, leb, Bool, true, false, Option, none, some,
  if◌then◌else◌, u64_max, ceil_div,
}

-- The numbers of the script.
pub record Lua (N : Type 0) : Type 0 where
  -- an integer as a number: `tonumber` of an argument, a numeral, the time
  pub integer : ℕ → N
  pub add : N → N → N
  pub sub : N → N → N
  pub mul : N → N → N
  pub div : N → N → N
  pub min : N → N → N
  pub max : N → N → N
  pub ceil : N → N
  pub floor : N → N
  pub less : N → N → Bool
  pub less_equal : N → N → Bool
  -- a number as an integer of a reply or of a command
  pub to_integer : N → ℕ

-- The commands that the script calls, at a time in milliseconds. The fields of the hash are `tokens` and `ts`, the
-- time of the last write; each is read back by `tonumber`.
pub record Commands (S N : Type 0) : Type 0 where
  -- `HMGET key tokens ts`
  pub hmget : ℕ → S → Option (N × N)
  -- `HSET key tokens tokens ts now`
  pub hset : ℕ → N → N → S → S
  -- `PEXPIRE key ttl`
  pub pexpire : ℕ → ℕ → S → S
  -- `DEL key`
  pub del : ℕ → S → S × ℕ

pub record Rate : Type 0 where
  pub tokens : ℕ
  -- in nanoseconds
  pub period : ℕ

-- Nothing for a panic.
unfoldable pub new_rate : ℕ → ℕ → Option Rate
new_rate tokens period =
    if tokens == 0 then none else some (record { tokens = tokens; period = period })

unfoldable pub per_second : ℕ → Option Rate
unfolding new_rate
per_second tokens = new_rate tokens 1000000000

unfoldable pub period_micros : Rate → ℕ
period_micros rate = max (min (rate.period / 1000) u64_max) 1

pub record TokenBucket : Type 0 where
  pub capacity : ℕ
  pub rate : Rate

-- The script's answer, `none` for a `retry_after_ms` of -1.
pub record Reply : Type 0 where
  pub allowed : ℕ
  pub retry_after_ms : Option ℕ
  pub remaining : ℕ

-- `tokens` and `ts`, as the script starts with them.
abbrev pub found : {N : Type 0} → N → N → Option (N × N) → N × N
found full now none = (full, now)
found full now (some (tokens, ts)) = (tokens, ts)

module _ {S N : Type 0} (lua : Lua N) (redis : Commands S N) (capacity refill period_us : ℕ) where
  -- `tokens`, once the bucket is refilled.
  unfoldable pub refilled : ℕ → N × N → N
  refilled now (tokens, ts) =
      let elapsed_us =
        lua.mul (lua.max (lua.sub (lua.integer now) ts) (lua.integer 0)) (lua.integer 1000) in
      lua.min (lua.integer capacity)
        (lua.add tokens (lua.div (lua.mul elapsed_us (lua.integer refill)) (lua.integer period_us)))

  -- The level of the bucket, as the script computes it.
  unfoldable pub level : ℕ → S → N
  unfolding refilled
  level now s = refilled now (found (lua.integer capacity) (lua.integer now) (redis.hmget now s))

  -- The milliseconds in which a number of tokens is refilled.
  unfoldable pub wait : N → N
  wait tokens = lua.ceil (
      lua.div (lua.div (lua.mul tokens (lua.integer period_us)) (lua.integer refill))
        (lua.integer 1000))

  -- The time to live with which the script leaves the key.
  unfoldable pub ttl : N → ℕ
  unfolding wait
  ttl tokens =
      let until_full = wait (lua.sub (lua.integer capacity) tokens) in
      lua.to_integer (lua.max until_full (lua.integer 1))

  -- The script's last lines.
  unfoldable pub store : ℕ → N → S → S
  unfolding ttl
  store now tokens s = redis.pexpire now (ttl tokens) (redis.hset now tokens (lua.integer now) s)

  -- `ACQUIRE`
  unfoldable pub acquire_script : ℕ → ℕ → S → S × Reply
  unfolding level store wait
  acquire_script now amount s =
      let tokens = level now s in
      let cost = lua.integer amount in
      if lua.less (lua.integer capacity) cost
      then (
        s,
        record {
          allowed = 0;
          retry_after_ms = none;
          remaining = lua.to_integer (lua.floor tokens);
        },
      )
      else if lua.less_equal cost tokens
      then (
        store now (lua.sub tokens cost) s,
        record {
          allowed = 1;
          retry_after_ms = some 0;
          remaining = lua.to_integer (lua.floor (lua.sub tokens cost));
        },
      )
      else (
        store now tokens s,
        record {
          allowed = 0;
          retry_after_ms = some (lua.to_integer (wait (lua.sub cost tokens)));
          remaining = lua.to_integer (lua.floor tokens);
        },
      )

pub data Admission : Type 0 where
  allowed : (remaining : ℕ) → Admission
  -- in milliseconds
  denied : (retry_after : Option ℕ) → Admission

abbrev pub admission : Reply → Admission
admission reply =
    if reply.allowed == 1 then allowed reply.remaining else denied reply.retry_after_ms

abbrev pub admitted : {S : Type 0} → S × Reply → S × Admission
admitted (s, reply) = (s, admission reply)

-- Execution of the query of `TokenBucket::acquire`.
unfoldable pub acquire :
    {S N : Type 0} → Lua N → Commands S N → TokenBucket → ℕ → ℕ → S → S × Admission
unfolding acquire_script period_micros
acquire lua redis bucket now cost s = admitted (
    acquire_script lua redis bucket.capacity bucket.rate.tokens (period_micros bucket.rate) now cost
      s)

-- Execution of the query of `TokenBucket::reset`.
unfoldable pub reset : {S N : Type 0} → Commands S N → ℕ → S → S × Bool
reset redis now s = let (s', removed) = redis.del now s in (s', ltb 0 removed)
