-- ===== src/Entity/Redis/TokenBucket/Examples.antt =====
-- Queries of a bucket of two tokens that gains one in three seconds
-- (wakuwaku-entity/src/redis/collection/token_bucket_limiter.rs), on a hash with an expiry.
use wakuwaku.Base.{
  ℕ, ◌+◌, ◌-◌, ◌*◌, ◌/◌, min, max, leb, ◌≡◌, refl, ltb, Option, none, some, if◌then◌else◌,
}
use wakuwaku.Entity.Redis.TokenBucket.{
  Lua, refilled, ttl, wait, Commands, TokenBucket, allowed, denied, acquire, acquire_script, level,
  store, period_micros,
}

-- Numbers that count the parts of a token, three million of them, and that the script's formulas don't round.
abbrev lua : Lua ℕ
lua = record {
  integer = λ n. n * 3000000;
  add = λ a b. a + b;
  sub = λ a b. a - b;
  mul = λ a b. a * b / 3000000;
  div = λ a b. a * 3000000 / b;
  min = min;
  max = max;
  ceil = λ a. (a + 2999999) / 3000000 * 3000000;
  floor = λ a. a / 3000000 * 3000000;
  less = ltb;
  less_equal = leb;
  to_integer = λ a. a / 3000000;
}

abbrev Hash : Type 0
Hash = Option (ℕ × ℕ) × Option ℕ

abbrev fields : ℕ → Hash → Option (ℕ × ℕ)
fields now (h, none) = h
fields now (h, some e) = if ltb now e then h else none

abbrev redis : Commands Hash ℕ
redis = record {
  hmget = fields;
  hset = λ now tokens ts (h, e). (some (tokens, ts), e);
  pexpire = λ now ttl (h, e). (h, some (now + ttl));
  del = λ now s. ((none, none), 1);
}

abbrev bucket : TokenBucket
bucket = record { capacity = 2; rate = record { tokens = 1; period = 3000000000 } }

abbrev fresh : Hash
fresh = (none, none)

abbrev next : ℕ → ℕ → Hash → Hash
next now cost s = (acquire lua redis bucket now cost s).0

-- Two tokens at once at 0, none at 1,000 and at 2,999, one at 3,000, and three never.
abbrev emptied : Hash
emptied = next 0 2 fresh

third_denied : (acquire lua redis bucket 1000 1 emptied).1 ≡ denied (some 2000)
unfolding acquire acquire_script level refilled store ttl wait period_micros
third_denied = refl

too_early : (acquire lua redis bucket 2999 1 (next 1000 1 emptied)).1 ≡ denied (some 1)
unfolding acquire acquire_script level refilled store ttl wait period_micros
too_early = refl

in_time : (acquire lua redis bucket 3000 1 (next 1000 1 emptied)).1 ≡ allowed 0
unfolding acquire acquire_script level refilled store ttl wait period_micros
in_time = refl

larger : (acquire lua redis bucket 9000 3 emptied).1 ≡ denied none
unfolding acquire acquire_script level refilled store ttl wait period_micros
larger = refl
