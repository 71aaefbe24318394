-- ===== src/Entity/Redis/Lock/Documented.antt =====
-- What the commands that the scripts of wakuwaku-entity/src/redis/collection/lock.rs call are documented to do:
-- a key is gone when its time has come, and a sorted set without members has no key.
use wakuwaku.Base.{
  ℕ, ◌+◌, ◌-◌, ◌==◌, ◌≡◌, ltb, Bool, true, false, List, [], ◌∷◌, Option, none, some, length,
  if◌then◌else◌,
}
use wakuwaku.Entity.Redis.Lock.{Commands}

-- The writer's token and expiry, the readers' tokens and scores, and the expiry of the readers' key.
pub record View : Type 0 where
  pub writer : Option (ℕ × ℕ)
  pub readers : List (ℕ × ℕ)
  pub until : Option ℕ

abbrev pub nothing : View
nothing = record { writer = none; readers = []; until = none }

abbrev pub alive : ℕ → Option (ℕ × ℕ) → Option (ℕ × ℕ)
alive now none = none
alive now (some (t, e)) = if ltb now e then some (t, e) else none

abbrev pub unexpired : ℕ → Option ℕ → Option ℕ
unexpired now none = none
unexpired now (some u) = if ltb now u then some u else none

abbrev pub existing : ℕ → Option ℕ → List (ℕ × ℕ) → List (ℕ × ℕ)
existing now none rs = rs
existing now (some u) rs = if ltb now u then rs else []

abbrev pub readers_at : ℕ → View → List (ℕ × ℕ)
readers_at now v = existing now v.until v.readers

abbrev pub lookup : ℕ → List (ℕ × ℕ) → Option ℕ
lookup t [] = none
lookup t ((r, e) ∷ rs) = if r == t then some e else lookup t rs

-- The readers with a score above `n`.
abbrev pub above : ℕ → List (ℕ × ℕ) → List (ℕ × ℕ)
above n [] = []
above n ((r, e) ∷ rs) = if ltb n e then (r, e) ∷ above n rs else above n rs

abbrev pub upsert : ℕ → ℕ → List (ℕ × ℕ) → List (ℕ × ℕ)
upsert t e [] = (t, e) ∷ []
upsert t e ((r, d) ∷ rs) = if r == t then (t, e) ∷ rs else (r, d) ∷ upsert t e rs

abbrev pub remove : ℕ → List (ℕ × ℕ) → List (ℕ × ℕ)
remove t [] = []
remove t ((r, d) ∷ rs) = if r == t then rs else (r, d) ∷ remove t rs

-- The sorted set after a command.
abbrev pub put : ℕ → View → List (ℕ × ℕ) → View
put now v [] = record v { readers = []; until = none }
put now v (r ∷ rs) = record v { readers = r ∷ rs; until = unexpired now v.until }

abbrev pub token_of : Option (ℕ × ℕ) → Option ℕ
token_of none = none
token_of (some (t, e)) = some t

abbrev pub set_free : ℕ → ℕ → ℕ → View → Option (ℕ × ℕ) → View × Bool
set_free now token ttl v none = (record v { writer = some (token, now + ttl) }, true)
set_free now token ttl v (some w) = (v, false)

abbrev pub expire_writer : ℕ → ℕ → View → Option (ℕ × ℕ) → View × ℕ
expire_writer now ttl v none = (v, 0)
expire_writer now ttl v (some (t, e)) = (record v { writer = some (t, now + ttl) }, 1)

abbrev left : ℕ → Option ℕ → Option ℕ
left now none = none
left now (some u) = some (u - now)

abbrev left_of : ℕ → View → List (ℕ × ℕ) → Option ℕ
left_of now v [] = none
left_of now v (r ∷ rs) = left now v.until

abbrev expire_readers : ℕ → ℕ → View → List (ℕ × ℕ) → View
expire_readers now ttl v [] = v
expire_readers now ttl v (r ∷ rs) = record v { until = some (now + ttl) }

abbrev pub update_known : ℕ → ℕ → ℕ → View → Option ℕ → View
update_known now e t v none = v
update_known now e t v (some d) = put now v (upsert t e (readers_at now v))

abbrev pub documented : Commands View
documented = record {
  get = λ now v. token_of (alive now v.writer);
  set_nx = λ now token ttl v. set_free now token ttl v (alive now v.writer);
  del = λ now v. (record v { writer = none }, 1);
  pexpire = λ now ttl v. expire_writer now ttl v (alive now v.writer);
  zremrangebyscore = λ now upto v. put now v (above upto (readers_at now v));
  zcard = λ now v. length (readers_at now v);
  zscore = λ now t v. lookup t (readers_at now v);
  zadd = λ now e t v. put now v (upsert t e (readers_at now v));
  zadd_xx = λ now e t v. update_known now e t v (lookup t (readers_at now v));
  zrem = λ now t v. put now v (remove t (readers_at now v));
  pttl = λ now v. left_of now v (readers_at now v);
  zexpire = λ now ttl v. expire_readers now ttl v (readers_at now v);
}

abbrev pub seen : {S A : Type 0} → (S → View) → S × A → View × A
seen view (s, a) = (view s, a)

-- The commands behave as documented on what `view` sees of the state.
pub record Behaves {S : Type 0} (redis : Commands S) (view : S → View) : Type 0 where
  pub get_is : (now : ℕ) (s : S) → redis.get now s ≡ documented.get now (view s)
  pub set_nx_is :
      (now token ttl : ℕ) (s : S)
      → seen view (redis.set_nx now token ttl s) ≡ documented.set_nx now token ttl (view s)
  -- the key exists
  pub del_is :
      (now : ℕ) (s : S) (t : ℕ)
      → redis.get now s ≡ some t
      → seen view (redis.del now s) ≡ documented.del now (view s)
  pub pexpire_is :
      (now ttl : ℕ) (s : S)
      → seen view (redis.pexpire now ttl s) ≡ documented.pexpire now ttl (view s)
  pub zremrangebyscore_is :
      (now upto : ℕ) (s : S)
      → view (redis.zremrangebyscore now upto s) ≡ documented.zremrangebyscore now upto (view s)
  pub zcard_is : (now : ℕ) (s : S) → redis.zcard now s ≡ documented.zcard now (view s)
  pub zscore_is : (now t : ℕ) (s : S) → redis.zscore now t s ≡ documented.zscore now t (view s)
  pub zadd_is :
      (now e t : ℕ) (s : S) → view (redis.zadd now e t s) ≡ documented.zadd now e t (view s)
  pub zadd_xx_is :
      (now e t : ℕ) (s : S) → view (redis.zadd_xx now e t s) ≡ documented.zadd_xx now e t (view s)
  pub zrem_is : (now t : ℕ) (s : S) → view (redis.zrem now t s) ≡ documented.zrem now t (view s)
  pub pttl_is : (now : ℕ) (s : S) → redis.pttl now s ≡ documented.pttl now (view s)
  pub zexpire_is :
      (now ttl : ℕ) (s : S) → view (redis.zexpire now ttl s) ≡ documented.zexpire now ttl (view s)
