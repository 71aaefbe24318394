-- ===== src/Entity/Redis/Lock/Reader.antt =====
-- The lease of a reader of an `RwLock` (wakuwaku-entity/src/redis/collection/lock.rs): the queries that grant
-- it, and those that leave it as it is.
use wakuwaku.Base.{
  ℕ, ◌+◌, ◌<◌, ◌≡◌, ◌≢◌, refl, sym, subst, ltb, Bool, true, false, List, Option, none, some,
  if◌then◌else◌, is_some_eq, arith,
}
use wakuwaku.Entity.Redis.{millis}
use wakuwaku.Entity.Redis.Lock.{
  release, extend, prolong, read_acquire, read_release, read_extend, write_acquire, lock_acquire,
  is_some, release_read_of, extend_read_of, Op, try_lock, try_read, try_write, extend_lock,
  extend_read, release_lock, release_read, run_op,
}
use wakuwaku.Entity.Redis.Lock.Documented.{
  View, documented, alive, readers_at, lookup, remove, set_free, expire_writer, update_known,
}
use wakuwaku.Entity.Redis.Lock.Readers.{Within, Within-above, Granted, zadd-Granted}
use wakuwaku.Entity.Redis.Lock.Exclusive.{answer-0}
use wakuwaku.Entity.Redis.Lock.Kept.{
  token_in, lookup-upsert, lookup-remove_other, Reads, at-Reads, put-Reads, above-Reads,
  Granted-Reads,
}

module _ (now t end : ℕ) (h : now < end) where
  if-Reads :
      (b : Bool) (x y : View × ℕ)
      → Reads t end x.0
      → Reads t end y.0
      → Reads t end (if b then x else y).0
  if-Reads true x y p q = p
  if-Reads false x y p q = q

  -- A query with another token leaves the lease as it is.
  pub op-Reads :
      (op : Op) (v : View)
      → token_in op ≢ t
      → Within v.until v.readers
      → Reads t end v
      → Reads t end (run_op documented now op v).0
  unfolding run_op lock_acquire read_acquire write_acquire extend release read_release read_extend
      extend_read_of
  op-Reads (try_lock u ttl) v d w q =
      subst (Reads t end) (sym (answer-0 (documented.set_nx now u (millis ttl) v)))
        (of (alive now v.writer))
    where
      of : (o : Option (ℕ × ℕ)) → Reads t end (set_free now u (millis ttl) v o).0
      of none = q
      of (some x) = q
  op-Reads (try_read u ttl) v d w q =
      let v1 = documented.zremrangebyscore now now v in
      if-Reads (is_some (documented.get now v)) (v, 0) _ q
        (Granted-Reads now t end h (now + millis ttl) u v1 _ d (Within-above now v w)
          (zadd-Granted now (millis ttl) u v1 (Within-above now v w))
          (above-Reads now t end h v w q))
  op-Reads (try_write u ttl) v d w q =
      let p = documented.zremrangebyscore now now v in
      let r = above-Reads now t end h v w q in
      if-Reads (ltb 0 (documented.zcard now p)) (p, 0) _ r
        (subst (Reads t end) (sym (answer-0 (documented.set_nx now u (millis ttl) p)))
          (of p r (alive now p.writer)))
    where
      of :
          (p : View)
          → Reads t end p
          → (o : Option (ℕ × ℕ)) → Reads t end (set_free now u (millis ttl) p o).0
      of p r none = r
      of p r (some x) = r
  op-Reads (extend_lock u ttl) v d w q =
      if-Reads (is_some_eq (documented.get now v) u) _ (v, 0) (of (alive now v.writer)) q
    where
      of : (o : Option (ℕ × ℕ)) → Reads t end (expire_writer now (millis ttl) v o).0
      of none = q
      of (some (r, e)) = q
  op-Reads (extend_read u ttl) v d w q = of (documented.zscore now u v) refl
    where
      of :
          (o : Option ℕ)
          → documented.zscore now u v ≡ o
          → Reads t end (extend_read_of documented now u (millis ttl) v o).0
      of none z = q
      of (some e) z =
          if-Reads (ltb now e) _ (v, 0)
            (subst
              (λ (o : Option ℕ).
                Reads t end
                  (prolong documented now (millis ttl) (update_known now (now + millis ttl) u v o)))
              (sym z)
              (Granted-Reads now t end h (now + millis ttl) u v _ d w
                (zadd-Granted now (millis ttl) u v w) q))
            q
  op-Reads (release_lock u) v d w q =
      if-Reads (is_some_eq (documented.get now v) u) (documented.del now v) (v, 0) q q
  op-Reads (release_read u) v d w q = of (documented.zscore now u v)
    where
      of : (o : Option ℕ) → Reads t end (release_read_of documented now u v o).0
      of none = q
      of (some e) =
          put-Reads now t end h v (remove u (readers_at now v))
            (lookup-remove_other t u end (readers_at now v) d (at-Reads now t end h v w q))

-- The queries that give the reader `t` a lease.
pub data Leases (t ttl : ℕ) : Op → Type 0 where
  tried : Leases t ttl (try_read t ttl)
  renewed : Leases t ttl (extend_read t ttl)

Granted-Leased : (now end t : ℕ) (v v' : View) → Granted now end t v v' → Reads t end v'
Granted-Leased now end t v v' g =
    subst (λ (xs : List (ℕ × ℕ)). lookup t xs ≡ some end) (sym g.readers_are)
      (lookup-upsert t end (readers_at now v))

if-Leased :
    (b : Bool) (t end : ℕ) (x y : View × ℕ)
    → (b ≡ true → x.1 ≡ 1 → Reads t end x.0)
    → (b ≡ false → y.1 ≡ 1 → Reads t end y.0)
    → (if b then x else y).1 ≡ 1
    → Reads t end (if b then x else y).0
if-Leased true t end x y f g q = f refl q
if-Leased false t end x y f g q = g refl q

pub lease-Reads :
    (now t ttl : ℕ) (op : Op) (v : View)
    → Leases t ttl op
    → Within v.until v.readers
    → (run_op documented now op v).1 ≡ 1
    → Reads t (now + millis ttl) (run_op documented now op v).0
unfolding run_op read_acquire read_extend extend_read_of
lease-Reads now t ttl op v tried w q =
    let v1 = documented.zremrangebyscore now now v in
    if-Leased (is_some (documented.get now v)) t (now + millis ttl) (v, 0) _
      (λ k z. absurd (omega arith))
      (λ k z.
        Granted-Leased now (now + millis ttl) t v1 _
          (zadd-Granted now (millis ttl) t v1 (Within-above now v w)))
      q
lease-Reads now t ttl op v renewed w q = of (documented.zscore now t v) refl q
  where
    of :
        (o : Option ℕ)
        → documented.zscore now t v ≡ o
        → (extend_read_of documented now t (millis ttl) v o).1 ≡ 1
        → Reads t (now + millis ttl) (extend_read_of documented now t (millis ttl) v o).0
    of none z q = absurd (omega arith)
    of (some e) z q =
        if-Leased (ltb now e) t (now + millis ttl) _ (v, 0)
          (λ k m.
            subst
              (λ (o : Option ℕ).
                Reads t (now + millis ttl)
                  (prolong documented now (millis ttl) (update_known now (now + millis ttl) t v o)))
              (sym z)
              (Granted-Leased now (now + millis ttl) t v _ (zadd-Granted now (millis ttl) t v w)))
          (λ k m. absurd (omega arith)) q
