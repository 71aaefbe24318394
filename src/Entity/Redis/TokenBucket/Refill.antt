-- ===== src/Entity/Redis/TokenBucket/Refill.antt =====
-- The three answers of `TokenBucket::acquire` (wakuwaku-entity/src/redis/collection/token_bucket_limiter.rs).
use wakuwaku.Base.{ℕ, ◌≡◌, true, Bool-cases, inl, inr, Option}
use wakuwaku.Entity.Redis.TokenBucket.{
  Lua, Commands, TokenBucket, Admission, allowed, denied, level, store, acquire, acquire_script,
  period_micros,
}

module _ {S N : Type 0} (lua : Lua N) (redis : Commands S N) (bucket : TokenBucket) where
  -- The parts of a token, the level that is computed at a time, and a write of a level.
  abbrev pub period : ℕ
  period = period_micros bucket.rate

  abbrev pub level_of : ℕ → S → N
  level_of = level lua redis bucket.capacity bucket.rate.tokens period

  abbrev pub store_of : ℕ → N → S → S
  store_of = store lua redis bucket.capacity bucket.rate.tokens period

  pub data Outcome (now cost : ℕ) (s : S) : S × Admission → Type 0 where
    too_large : (retry_after : Option ℕ) → Outcome now cost s (s, denied retry_after)
    taken :
        (remaining : ℕ)
        → lua.less_equal (lua.integer cost) (level_of now s) ≡ true
        → Outcome now cost s
            (store_of now (lua.sub (level_of now s) (lua.integer cost)) s, allowed remaining)
    short :
        (retry_after : Option ℕ)
        → Outcome now cost s (store_of now (level_of now s) s, denied retry_after)

  pub acquire-Outcome :
      (now cost : ℕ) (s : S) → Outcome now cost s (acquire lua redis bucket now cost s)
  unfolding acquire acquire_script
  acquire-Outcome now cost s =
      elim (Bool-cases (lua.less (lua.integer bucket.capacity) (lua.integer cost))) [
        | inl q ↦ rw q (too_large _)
        | inr q ↦ elim (Bool-cases (lua.less_equal (lua.integer cost) (level_of now s))) [
          | inl k ↦ rw (q, k) (taken _ k)
          | inr k ↦ rw (q, k) (short _)
        ]
      ]
