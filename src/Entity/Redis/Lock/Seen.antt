-- ===== src/Entity/Redis/Lock/Seen.antt =====
-- Where the commands behave as documented, a script does to what is seen of the state what it does with
-- the documented commands (wakuwaku-entity/src/redis/collection/lock.rs).
use wakuwaku.Base.{
  ℕ, ◌+◌, ◌≡◌, refl, ap, ◌∙◌, subst, ltb, Bool, true, false, Option, none, some, if◌then◌else◌,
  is_some_eq, arith,
}
use wakuwaku.Entity.Redis.{millis}
use wakuwaku.Entity.Redis.Lock.{
  Commands, is_below, is_some, answer, release, extend, prolong, read_acquire, read_release,
  read_extend, write_acquire, lock_acquire, release_read_of, extend_read_of, Op, try_lock, try_read,
  try_write, extend_lock, extend_read, release_lock, release_read, run_op,
}
use wakuwaku.Entity.Redis.Lock.Documented.{View, documented, seen, Behaves}

module _ {S : Type 0} (redis : Commands S) (view : S → View) (b : Behaves redis view) where
  if-seen :
      {A : Type 0} (test : Bool) (x y : S × A) (x' y' : View × A)
      → (test ≡ true → seen view x ≡ x')
      → seen view y ≡ y'
      → seen view (if test then x else y) ≡ (if test then x' else y')
  if-seen true x y x' y' p q = p refl
  if-seen false x y x' y' p q = q

  if-view :
      (test : Bool) (x y : S) (x' y' : View)
      → view x ≡ x'
      → view y ≡ y'
      → view (if test then x else y) ≡ (if test then x' else y')
  if-view true x y x' y' p q = p
  if-view false x y x' y' p q = q

  pair-seen : {A : Type 0} (s : S) (v : View) (a : A) → view s ≡ v → seen view (s, a) ≡ (v, a)
  pair-seen s v a e = ap (λ (x : View). (x, a)) e

  answer-seen :
      (x : S × Bool) (y : View × Bool)
      → seen view x ≡ y
      → seen view (answer redis x) ≡ answer documented y
  answer-seen x y e = ap (λ (p : View × Bool). answer documented p) e

  held : (o : Option ℕ) (t : ℕ) → is_some_eq o t ≡ true → o ≡ some t
  held none t h = absurd (cc)
  held (some u) t h = ap some (ground (arith, h))

  release-seen :
      (now token : ℕ) (s : S)
      → seen view (release redis now token s) ≡ release documented now token (view s)
  unfolding release
  release-seen now token s =
      subst
        (λ (o : Option ℕ).
          seen view (release redis now token s)
          ≡ (if is_some_eq o token then documented.del now (view s) else (view s, 0)))
        (b.get_is now s)
        (if-seen (is_some_eq (redis.get now s) token) (redis.del now s) (s, 0) _ _
          (λ h. b.del_is now s token (held (redis.get now s) token h)) refl)

  extend-seen :
      (now token ttl : ℕ) (s : S)
      → seen view (extend redis now token ttl s) ≡ extend documented now token ttl (view s)
  unfolding extend
  extend-seen now token ttl s =
      subst
        (λ (o : Option ℕ).
          seen view (extend redis now token ttl s)
          ≡ (if is_some_eq o token then documented.pexpire now ttl (view s) else (view s, 0)))
        (b.get_is now s)
        (if-seen (is_some_eq (redis.get now s) token) (redis.pexpire now ttl s) (s, 0) _ _
          (λ h. b.pexpire_is now ttl s) refl)

  prolong-view :
      (now ttl : ℕ) (s : S) (v : View)
      → view s ≡ v
      → view (prolong redis now ttl s) ≡ prolong documented now ttl v
  unfolding prolong
  prolong-view now ttl s v e =
      subst (λ (u : View). view (prolong redis now ttl s) ≡ prolong documented now ttl u) e
        (subst
          (λ (o : Option ℕ).
            view (prolong redis now ttl s)
            ≡ (if is_below o ttl then documented.zexpire now ttl (view s) else view s))
          (b.pttl_is now s)
          (if-view (is_below (redis.pttl now s) ttl) (redis.zexpire now ttl s) s _ _
            (b.zexpire_is now ttl s) refl))

  read_acquire-seen :
      (now token ttl : ℕ) (s : S)
      → seen view (read_acquire redis now token ttl s)
        ≡ read_acquire documented now token ttl (view s)
  unfolding read_acquire
  read_acquire-seen now token ttl s =
      subst
        (λ (o : Option ℕ). seen view (read_acquire redis now token ttl s) ≡ (
          if is_some o then (view s, 0) else (
            prolong documented now ttl (
                documented.zadd now (now + ttl) token
                  (documented.zremrangebyscore now now (view s))),
            1,
          )))
        (b.get_is now s)
        (if-seen (is_some (redis.get now s)) (s, 0) _ _ _ (λ h. refl)
          (pair-seen _ _ 1 (
            prolong-view now ttl _ _ (
              b.zadd_is now (now + ttl) token (redis.zremrangebyscore now now s)
              ∙ ap (documented.zadd now (now + ttl) token) (b.zremrangebyscore_is now now s)))))

  read_release-seen :
      (now token : ℕ) (s : S)
      → seen view (read_release redis now token s) ≡ read_release documented now token (view s)
  unfolding read_release
  read_release-seen now token s =
      subst
        (λ (o : Option ℕ).
          seen view (read_release redis now token s)
          ≡ release_read_of documented now token (view s) o)
        (b.zscore_is now token s) (of (redis.zscore now token s))
    where
      of :
          (o : Option ℕ)
          → seen view (release_read_of redis now token s o)
            ≡ release_read_of documented now token (view s) o
      of none = refl
      of (some e) = pair-seen _ _ (if ltb now e then 1 else 0) (b.zrem_is now token s)

  read_extend-seen :
      (now token ttl : ℕ) (s : S)
      → seen view (read_extend redis now token ttl s)
        ≡ read_extend documented now token ttl (view s)
  unfolding read_extend extend_read_of
  read_extend-seen now token ttl s =
      subst
        (λ (o : Option ℕ).
          seen view (read_extend redis now token ttl s)
          ≡ extend_read_of documented now token ttl (view s) o)
        (b.zscore_is now token s) (of (redis.zscore now token s))
    where
      of :
          (o : Option ℕ)
          → seen view (extend_read_of redis now token ttl s o)
            ≡ extend_read_of documented now token ttl (view s) o
      of none = refl
      of (some e) =
          if-seen (ltb now e) _ (s, 0) _ _
            (λ h. pair-seen _ _ 1 (prolong-view now ttl _ _ (b.zadd_xx_is now (now + ttl) token s)))
            refl

  write_acquire-seen :
      (now token ttl : ℕ) (s : S)
      → seen view (write_acquire redis now token ttl s)
        ≡ write_acquire documented now token ttl (view s)
  unfolding write_acquire
  write_acquire-seen now token ttl s =
      let p = redis.zremrangebyscore now now s in
      let v = documented.zremrangebyscore now now (view s) in
      let e : view p ≡ v = b.zremrangebyscore_is now now s in
      subst
        (λ (n : ℕ).
          seen view (write_acquire redis now token ttl s)
          ≡ (if ltb 0 n then (v, 0) else answer documented (documented.set_nx now token ttl v)))
        (b.zcard_is now p ∙ ap (documented.zcard now) e)
        (if-seen (ltb 0 (redis.zcard now p)) (p, 0) _ _ _ (λ h. pair-seen p v 0 e)
          (answer-seen _ _ (b.set_nx_is now token ttl p ∙ ap (documented.set_nx now token ttl) e)))

  -- Each query does to what is seen of the state what it does with the documented commands, and answers the
  -- same.
  pub run_op-seen :
      (now : ℕ) (op : Op) (s : S)
      → seen view (run_op redis now op s) ≡ run_op documented now op (view s)
  unfolding run_op lock_acquire
  run_op-seen now (try_lock token ttl) s = answer-seen _ _ (b.set_nx_is now token (millis ttl) s)
  run_op-seen now (try_read token ttl) s = read_acquire-seen now token (millis ttl) s
  run_op-seen now (try_write token ttl) s = write_acquire-seen now token (millis ttl) s
  run_op-seen now (extend_lock token ttl) s = extend-seen now token (millis ttl) s
  run_op-seen now (extend_read token ttl) s = read_extend-seen now token (millis ttl) s
  run_op-seen now (release_lock token) s = release-seen now token s
  run_op-seen now (release_read token) s = read_release-seen now token s
