-- ===== src/Entity/Redis/Lock/Steps.antt =====
-- Each query of an `RwLock` keeps its writer and its readers apart (wakuwaku-entity/src/redis/collection/lock.rs).
use wakuwaku.Base.{
  ℕ, ◌+◌, ◌<◌, ◌≡◌, refl, sym, ap, ◌∙◌, subst, ltb, Bool, true, false, List, [], ◌∷◌, Option, none,
  some, length, is_some_eq, Option-cases, Bool-cases, inl, inr, arith,
}
use wakuwaku.Entity.Redis.{millis}
use wakuwaku.Entity.Redis.Lock.{
  release, extend, prolong, read_acquire, read_release, read_extend, write_acquire, is_some,
  release_read_of, extend_read_of, Op, try_lock, try_read, try_write, extend_lock, extend_read,
  release_lock, release_read, run_op,
}
use wakuwaku.Entity.Redis.Lock.Documented.{
  View, documented, alive, existing, unexpired, readers_at, lookup, above, put, set_free,
  expire_writer, token_of, update_known,
}
use wakuwaku.Entity.Redis.Lock.Readers.{Within-above, Granted, zadd-Granted}
use wakuwaku.Entity.Redis.Lock.Exclusive.{
  Inv, Calm-alive, put-writer, existing_none, above-Inv, remove-Inv, Granted-Inv, if-Inv, answer-0,
}

is_some-none : (o : Option (ℕ × ℕ)) → is_some (token_of o) ≡ false → o ≡ none
is_some-none none q = refl
is_some-none (some (t, e)) q = absurd (cc)

read_acquire-Inv :
    (now t ttl : ℕ) (v : View) → Inv now v → Inv now (read_acquire documented now t ttl v).0
unfolding read_acquire
read_acquire-Inv now t ttl v i =
    let v1 = documented.zremrangebyscore now now v in
    let g = zadd-Granted now ttl t v1 (Within-above now v i.within) in
    if-Inv now (is_some (documented.get now v)) (v, 0) _ (λ q. i)
      (λ q.
        Granted-Inv now (now + ttl) t v1 _
          (ap (alive now) (put-writer now v (above now (readers_at now v)))
            ∙ is_some-none (alive now v.writer) q)
          g)

read_release-Inv : (now t : ℕ) (v : View) → Inv now v → Inv now (read_release documented now t v).0
unfolding read_release
read_release-Inv now t v i = of (documented.zscore now t v)
  where
    of : (o : Option ℕ) → Inv now (release_read_of documented now t v o).0
    of none = i
    of (some e) = remove-Inv now t v i

-- A reader whose lease runs: there is no writer.
reading :
    (now t e : ℕ) (v : View)
    → Inv now v
    → documented.zscore now t v ≡ some e
    → now < e
    → alive now v.writer ≡ none
reading now t e v i q h = elim (Option-cases (alive now v.writer)) [
  | inl n ↦ n
  | inr ((u, d), k) ↦
      let a =
        existing_none now v.until v.readers (Calm-alive now v.writer v.readers u d k i.calm) in
      absurd (cc (sym q ∙ ap (lookup t) a))
]

read_extend-Inv :
    (now t ttl : ℕ) (v : View) → Inv now v → Inv now (read_extend documented now t ttl v).0
unfolding read_extend extend_read_of
read_extend-Inv now t ttl v i = of (documented.zscore now t v) refl
  where
    of :
        (o : Option ℕ)
        → documented.zscore now t v ≡ o
        → Inv now (extend_read_of documented now t ttl v o).0
    of none q = i
    of (some e) q =
        if-Inv now (ltb now e) _ (v, 0)
          (λ k. Granted-Inv now (now + ttl) t v _ (reading now t e v i q (ground (arith, k))) (
            subst
              (λ (o : Option ℕ).
                Granted now (now + ttl) t v
                  (prolong documented now ttl (update_known now (now + ttl) t v o)))
              (sym q) (zadd-Granted now ttl t v i.within)))
          (λ k. i)

-- The writer's key is set while there are no readers.
write-Inv :
    (now t e : ℕ) (v : View)
    → Inv now v
    → v.readers ≡ []
    → Inv now (record v { writer = some (t, e) })
write-Inv now t e v i a = record { within = i.within; calm = inr a }

extend-Inv : (now t ttl : ℕ) (v : View) → Inv now v → Inv now (extend documented now t ttl v).0
unfolding extend
extend-Inv now t ttl v i =
    if-Inv now (is_some_eq (documented.get now v) t) _ (v, 0) (λ k. of (alive now v.writer) refl)
      (λ k. i)
  where
    of : (o : Option (ℕ × ℕ)) → alive now v.writer ≡ o → Inv now (expire_writer now ttl v o).0
    of none q = i
    of (some (u, d)) q =
        write-Inv now u (now + ttl) v i (Calm-alive now v.writer v.readers u d q i.calm)

release-Inv : (now t : ℕ) (v : View) → Inv now v → Inv now (release documented now t v).0
unfolding release
release-Inv now t v i =
    if-Inv now (is_some_eq (documented.get now v) t) _ (v, 0)
      (λ k. record { within = i.within; calm = tt }) (λ k. i)

existing-unexpired :
    (now : ℕ) (o : Option ℕ) (rs : List (ℕ × ℕ)) → existing now (unexpired now o) rs ≡ rs
existing-unexpired now none rs = refl
existing-unexpired now (some u) rs = elim (Bool-cases (ltb now u)) [
  | inl k ↦ rw k (rw k refl)
  | inr k ↦ rw k refl
]

-- The sorted set that a command left counts no member.
put-Empty :
    (now : ℕ) (v : View) (rs : List (ℕ × ℕ))
    → length (readers_at now (put now v rs)) ≡ 0
    → (put now v rs).readers ≡ []
put-Empty now v [] z = refl
put-Empty now v (r ∷ rs) z =
    let e = sym (ap length (existing-unexpired now v.until (r ∷ rs))) ∙ z in absurd (omega arith)

write_acquire-Inv :
    (now t ttl : ℕ) (v : View) → Inv now v → Inv now (write_acquire documented now t ttl v).0
unfolding write_acquire
write_acquire-Inv now t ttl v i =
    let p = documented.zremrangebyscore now now v in
    let j = above-Inv now v i in
    if-Inv now (ltb 0 (documented.zcard now p)) (p, 0) _ (λ k. j)
      (λ k. subst (Inv now) (sym (answer-0 (documented.set_nx now t ttl p))) (
        of p j (put-Empty now v (above now (readers_at now v)) (ground (arith, k)))
          (alive now p.writer)))
  where
    of :
        (p : View)
        → Inv now p
        → p.readers ≡ []
        → (o : Option (ℕ × ℕ)) → Inv now (set_free now t ttl p o).0
    of p j a none = write-Inv now t (now + ttl) p j a
    of p j a (some w) = j

-- The queries of an `RwLock`: a `Lock` of the same name has another key.
abbrev pub is_shared : Op → Bool
is_shared (try_lock token ttl) = false
is_shared (try_read token ttl) = true
is_shared (try_write token ttl) = true
is_shared (extend_lock token ttl) = true
is_shared (extend_read token ttl) = true
is_shared (release_lock token) = true
is_shared (release_read token) = true

pub run_op-Inv :
    (now : ℕ) (op : Op) (v : View)
    → is_shared op ≡ true
    → Inv now v
    → Inv now (run_op documented now op v).0
unfolding run_op
run_op-Inv now (try_lock t ttl) v q i = absurd (cc)
run_op-Inv now (try_read t ttl) v q i = read_acquire-Inv now t (millis ttl) v i
run_op-Inv now (try_write t ttl) v q i = write_acquire-Inv now t (millis ttl) v i
run_op-Inv now (extend_lock t ttl) v q i = extend-Inv now t (millis ttl) v i
run_op-Inv now (extend_read t ttl) v q i = read_extend-Inv now t (millis ttl) v i
run_op-Inv now (release_lock t) v q i = release-Inv now t v i
run_op-Inv now (release_read t) v q i = read_release-Inv now t v i
