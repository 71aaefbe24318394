-- ===== src/Entity/Redis/TokenBucket/Admitted.antt =====
-- What a bucket admits in a time (wakuwaku-entity/src/redis/collection/token_bucket_limiter.rs).
use wakuwaku.Base.{ℕ, zero, suc, ◌+◌, ◌-◌, ◌*◌, ◌≤◌}
use wakuwaku.Entity.Redis.TokenBucket.{
  Lua, Commands, TokenBucket, Admission, allowed, denied, acquire, period_micros,
}
use wakuwaku.Entity.Redis.TokenBucket.Levels.{Behaves, Rounds, gained}
use wakuwaku.Entity.Redis.TokenBucket.Refill.{level_of}

-- The tokens that a query took.
abbrev pub tokens_taken : ℕ → Admission → ℕ
tokens_taken cost (allowed remaining) = cost
tokens_taken cost (denied retry_after) = 0

-- The states that a number of queries of any costs reach from `s0` at a time, and the tokens that they took
-- together.
pub data Run {S N : Type 0} (lua : Lua N) (redis : Commands S N) (bucket : TokenBucket) (begin : ℕ)
    (s0 : S) : ℕ → S → ℕ → ℕ → Type 0 where
  start : Run lua redis bucket begin s0 begin s0 0 0
  after :
      (now : ℕ) (s : S) (spent queries later cost : ℕ)
      → Run lua redis bucket begin s0 now s spent queries
      → now ≤ later
      → Run lua redis bucket begin s0 later
          (acquire lua redis bucket later cost s).0
          (spent + tokens_taken cost (acquire lua redis bucket later cost s).1)
          (suc queries)

-- The error that each query adds.
slack : ℕ → ℕ → ℕ
slack e zero = e
slack e (suc queries) = slack e queries + e + e + e

module _ {S N : Type 0} (lua : Lua N) (redis : Commands S N) (b : Behaves redis)
    (bucket : TokenBucket) (e : ℕ) (parts : N → ℕ)
    (r : Rounds lua redis bucket.capacity bucket.rate.tokens
      (period_micros bucket.rate)
      e
      parts) where
  abbrev unit : ℕ
  unit = period_micros bucket.rate

  abbrev full : ℕ
  full = bucket.capacity * unit

  -- What was taken and what is left, at any later time, is no more than the bucket held and gained since, and the
  -- error of the queries.
  abbrev Budget : ℕ → ℕ → S → ℕ → ℕ → Type 0
  Budget begin now s spent queries =
      (later : ℕ)
      → now ≤ later
      → spent * unit + parts (level_of lua redis bucket later s)
        ≤ full + gained bucket.rate.tokens (later - begin) + slack e queries
