-- ===== src/Entity/Redis/TokenBucket/Levels.antt =====
-- Levels of a bucket (wakuwaku-entity/src/redis/collection/token_bucket_limiter.rs) as time passes: the key's
-- expiry is not seen, but for the rounding of the script's numbers.
use wakuwaku.Base.{
  ℕ, ◌+◌, ◌-◌, ◌*◌, ◌≤◌, min, ◌≡◌, sym, ap, ◌∙◌, subst, ltb, true, Bool-cases, inl, inr, Option,
  none, some, if◌then◌else◌, arith,
}
use native.Mathlib.Nat.{add-mul}
use wakuwaku.Entity.Redis.TokenBucket.{Lua, Commands, found, refilled, level, ttl, store}

-- A hash whose key expires is there until it does.
pub record Behaves {S N : Type 0} (redis : Commands S N) : Type 0 where
  pub stored :
      (now later ttl : ℕ) (tokens ts : N) (s : S)
      → now ≤ later
      → redis.hmget later (redis.pexpire now ttl (redis.hset now tokens ts s))
        ≡ (if ltb later (now + ttl) then some (tokens, ts) else none)

-- What a time in milliseconds adds to a level, in parts of a token. A token has as many parts as the period has
-- microseconds.
abbrev pub gained : ℕ → ℕ → ℕ
gained refill d = d * 1000 * refill

pub gained_add : (refill c d : ℕ) → gained refill (c + d) ≡ gained refill c + gained refill d
gained_add refill c d =
    ap (λ (x : ℕ). x * refill) (add-mul c d 1000) ∙ add-mul (c * 1000) (d * 1000) refill

-- The script's arithmetic rounds: where it refills, where it takes tokens, and where it computes the time until the
-- bucket is full, it is wrong by at most `e` parts of a token. `parts` reads a number as a number of parts.
pub record Rounds {S N : Type 0} (lua : Lua N) (redis : Commands S N)
    (capacity refill period_us e : ℕ) (parts : N → ℕ) : Type 0 where
  pub refills :
      (now ts : ℕ) (tokens : N)
      → parts (refilled lua redis capacity refill period_us now (tokens, lua.integer ts))
        ≤ min (capacity * period_us) (parts tokens + gained refill (now - ts)) + e
  -- whatever is stored
  pub caps :
      (now : ℕ) (stored : N × N)
      → parts (refilled lua redis capacity refill period_us now stored) ≤ capacity * period_us + e
  pub takes :
      (cost : ℕ) (tokens : N)
      → lua.less_equal (lua.integer cost) tokens ≡ true
      → cost * period_us + parts (lua.sub tokens (lua.integer cost)) ≤ parts tokens + e
  pub fills :
      (d : ℕ) (tokens : N)
      → ttl lua redis capacity refill period_us tokens ≤ d
      → capacity * period_us ≤ parts tokens + gained refill d + e

module _ {S N : Type 0} (lua : Lua N) (redis : Commands S N) (b : Behaves redis)
    (capacity refill period_us e : ℕ) (parts : N → ℕ)
    (r : Rounds lua redis capacity refill period_us e parts) where
  -- After a write the level grows no more than with the time, whether the key has expired or not.
  pub level-store :
      (now later : ℕ) (tokens : N) (s : S)
      → now ≤ later
      → parts (
          level lua redis capacity refill period_us later
            (store lua redis capacity refill period_us now tokens s))
        ≤ parts tokens + gained refill (later - now) + e + e
  unfolding level store
  level-store now later tokens s l =
      let t = ttl lua redis capacity refill period_us tokens in
      let full = lua.integer capacity in
      subst
        (λ (o : Option (N × N)).
          parts
            (refilled lua redis capacity refill period_us later (found full (lua.integer later) o))
          ≤ parts tokens + gained refill (later - now) + e + e)
        (sym (b.stored now later t tokens (lua.integer now) s l))
        (elim (Bool-cases (ltb later (now + t))) [
          | inl q ↦ let k = r.refills later now tokens in rw q (omega arith)
          | inr q ↦
              let m = r.fills (later - now) tokens (ground (arith, q, l)) in
              let k = r.caps later (full, lua.integer later) in rw q (omega arith)
        ])

  -- The bucket never holds more than its capacity.
  pub level-le :
      (now : ℕ) (s : S)
      → parts (level lua redis capacity refill period_us now s) ≤ capacity * period_us + e
  unfolding level
  level-le now s = r.caps now _
