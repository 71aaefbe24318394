-- ===== src/Entity/Redis/Lock/Writer.antt =====
-- The lease of a holder of a `Lock`, or of the writer of an `RwLock` (wakuwaku-entity/src/redis/collection/lock.rs):
-- the queries that grant it, and those that leave it as it is.
use wakuwaku.Base.{
  ℕ, ◌+◌, ◌<◌, ◌≡◌, ◌≢◌, refl, ap, ◌∙◌, ltb, Bool, true, false, List, [], ◌∷◌, Option, none, some,
  if◌then◌else◌, is_some_eq, arith,
}
use wakuwaku.Entity.Redis.{millis}
use wakuwaku.Entity.Redis.Lock.{
  release, extend, prolong, read_acquire, read_release, read_extend, write_acquire, lock_acquire,
  is_some, answer, release_read_of, extend_read_of, Op, try_lock, try_read, try_write, extend_lock,
  extend_read, release_lock, release_read, run_op, is_below,
}
use wakuwaku.Entity.Redis.Lock.Documented.{
  View, documented, alive, readers_at, above, upsert, remove, put, set_free, expire_writer,
  update_known,
}
use wakuwaku.Entity.Redis.Lock.Exclusive.{put-writer}
use wakuwaku.Entity.Redis.Lock.Kept.{token_in}

-- The token `t` has the writer key until `end`.
abbrev pub Writes : ℕ → ℕ → View → Type 0
Writes t end v = v.writer ≡ some (t, end)

prolong-writer : (now ttl : ℕ) (v : View) → (prolong documented now ttl v).writer ≡ v.writer
unfolding prolong
prolong-writer now ttl v = of (is_below (documented.pttl now v) ttl)
  where
    expired :
        (rs : List (ℕ × ℕ))
        → (elim rs as (λ x. View) [
          | [] ↦ v
          | r ∷ rs' ↦ record v { until = some (now + ttl) }
        ]).writer
          ≡ v.writer
    expired [] = refl
    expired (r ∷ rs) = refl

    of : (b : Bool) → (if b then documented.zexpire now ttl v else v).writer ≡ v.writer
    of true = expired (readers_at now v)
    of false = refl

pub alive-Writes :
    (now t end : ℕ) (v : View) → now < end → Writes t end v → alive now v.writer ≡ some (t, end)
alive-Writes now t end v h q = rw q (ground (arith, h))

module _ (now t end : ℕ) (h : now < end) where
  if-Writes :
      (b : Bool) (x y : View × ℕ)
      → (b ≡ true → Writes t end x.0)
      → Writes t end y.0
      → Writes t end (if b then x else y).0
  if-Writes true x y p q = p refl
  if-Writes false x y p q = q

  pub put-Writes : (v : View) (rs : List (ℕ × ℕ)) → Writes t end v → Writes t end (put now v rs)
  put-Writes v rs q = put-writer now v rs ∙ q

  -- The script finds another token than its own.
  not_mine :
      (u : ℕ) (v : View) → u ≢ t → Writes t end v → is_some_eq (documented.get now v) u ≡ false
  not_mine u v d q = rw (alive-Writes now t end v h q) (ground (arith, d))

  set_nx-Writes :
      (u ttl : ℕ) (v : View)
      → Writes t end v
      → Writes t end (answer documented (documented.set_nx now u ttl v)).0
  set_nx-Writes u ttl v q = rw (alive-Writes now t end v h q) q

  pub op-Writes :
      (op : Op) (v : View)
      → token_in op ≢ t
      → Writes t end v
      → Writes t end (run_op documented now op v).0
  unfolding run_op lock_acquire read_acquire write_acquire extend release read_release read_extend
      extend_read_of
  op-Writes (try_lock u ttl) v d q = set_nx-Writes u (millis ttl) v q
  op-Writes (try_read u ttl) v d q =
      let p = documented.zremrangebyscore now now v in
      if-Writes (is_some (documented.get now v)) (v, 0)
        (prolong documented now (millis ttl) (documented.zadd now (now + millis ttl) u p), 1)
        (λ k. q)
        (prolong-writer now (millis ttl) (documented.zadd now (now + millis ttl) u p)
          ∙ put-Writes p (upsert u (now + millis ttl) (readers_at now p))
              (put-Writes v (above now (readers_at now v)) q))
  op-Writes (try_write u ttl) v d q =
      let p = documented.zremrangebyscore now now v in
      let r = put-Writes v (above now (readers_at now v)) q in
      if-Writes (ltb 0 (documented.zcard now p)) (p, 0) _ (λ k. r)
        (set_nx-Writes u (millis ttl) p r)
  op-Writes (extend_lock u ttl) v d q =
      if-Writes (is_some_eq (documented.get now v) u) _ (v, 0)
        (λ k. absurd (cc (k, not_mine u v d q))) q
  op-Writes (extend_read u ttl) v d q = of (documented.zscore now u v)
    where
      known : (o : Option ℕ) → Writes t end (update_known now (now + millis ttl) u v o)
      known none = q
      known (some e) = put-Writes v (upsert u (now + millis ttl) (readers_at now v)) q

      of : (o : Option ℕ) → Writes t end (extend_read_of documented now u (millis ttl) v o).0
      of none = q
      of (some e) =
          if-Writes (ltb now e) _ (v, 0)
            (λ k.
              prolong-writer now (millis ttl) (documented.zadd_xx now (now + millis ttl) u v)
              ∙ known (documented.zscore now u v))
            q
  op-Writes (release_lock u) v d q =
      if-Writes (is_some_eq (documented.get now v) u) _ (v, 0)
        (λ k. absurd (cc (k, not_mine u v d q))) q
  op-Writes (release_read u) v d q = of (documented.zscore now u v)
    where
      of : (o : Option ℕ) → Writes t end (release_read_of documented now u v o).0
      of none = q
      of (some e) = put-Writes v (remove u (readers_at now v)) q

-- The queries that give the token `t` the writer key.
pub data Locks (t ttl : ℕ) : Op → Type 0 where
  locked : Locks t ttl (try_lock t ttl)
  written : Locks t ttl (try_write t ttl)
  extended : Locks t ttl (extend_lock t ttl)

set_free-Writes :
    (now t ttl : ℕ) (v : View) (o : Option (ℕ × ℕ))
    → (answer documented (set_free now t ttl v o)).1 ≡ 1
    → Writes t (now + ttl) (answer documented (set_free now t ttl v o)).0
set_free-Writes now t ttl v none q = refl
set_free-Writes now t ttl v (some w) q = absurd (omega arith)

if-Locked :
    (b : Bool) (t end : ℕ) (x y : View × ℕ)
    → (b ≡ true → x.1 ≡ 1 → Writes t end x.0)
    → (y.1 ≡ 1 → Writes t end y.0)
    → (if b then x else y).1 ≡ 1
    → Writes t end (if b then x else y).0
if-Locked true t end x y f g q = f refl q
if-Locked false t end x y f g q = g q

pub locks-Writes :
    (now t ttl : ℕ) (op : Op) (v : View)
    → Locks t ttl op
    → (run_op documented now op v).1 ≡ 1
    → Writes t (now + millis ttl) (run_op documented now op v).0
unfolding run_op lock_acquire write_acquire extend
locks-Writes now t ttl op v locked q = set_free-Writes now t (millis ttl) v (alive now v.writer) q
locks-Writes now t ttl op v written q =
    let p = documented.zremrangebyscore now now v in
    if-Locked (ltb 0 (documented.zcard now p)) t (now + millis ttl) (p, 0) _
      (λ k z. absurd (omega arith)) (set_free-Writes now t (millis ttl) p (alive now p.writer)) q
locks-Writes now t ttl op v extended q =
    if-Locked (is_some_eq (documented.get now v) t) t (now + millis ttl) _ (v, 0)
      (λ k z. of (alive now v.writer) k) (λ z. absurd (omega arith)) q
  where
    of :
        (o : Option (ℕ × ℕ))
        → is_some_eq (elim o as (λ x. Option ℕ) [ none ↦ none | some (r, e) ↦ some r ]) t ≡ true
        → Writes t (now + millis ttl) (expire_writer now (millis ttl) v o).0
    of none k = absurd (cc)
    of (some (r, e)) k = ap (λ (x : ℕ). some (x, now + millis ttl)) (ground (arith, k))
