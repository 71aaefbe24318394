-- ===== src/Entity/Redis/Lock/Kept.antt =====
-- A lease that was granted is kept until it ends, whatever other tokens do (wakuwaku-entity/src/redis/collection/lock.rs):
-- the steps.
use wakuwaku.Base.{
  ℕ, ◌==◌, ◌<◌, ◌≡◌, ◌≢◌, sym, subst, ltb, List, [], ◌∷◌, Option, none, some, Bool-cases, inl, inr,
  arith,
}
use wakuwaku.Entity.Redis.Lock.{
  Op, try_lock, try_read, try_write, extend_lock, extend_read, release_lock, release_read,
}
use wakuwaku.Entity.Redis.Lock.Documented.{
  View, documented, existing, readers_at, lookup, above, upsert, remove, put,
}
use wakuwaku.Entity.Redis.Lock.Readers.{AllLe-lookup, Within, Granted}
use wakuwaku.Entity.Redis.Lock.Exclusive.{put-readers}

abbrev pub token_in : Op → ℕ
token_in (try_lock token ttl) = token
token_in (try_read token ttl) = token
token_in (try_write token ttl) = token
token_in (extend_lock token ttl) = token
token_in (extend_read token ttl) = token
token_in (release_lock token) = token
token_in (release_read token) = token

pub lookup-above :
    (now t e : ℕ) (rs : List (ℕ × ℕ))
    → now < e
    → lookup t rs ≡ some e
    → lookup t (above now rs) ≡ some e
lookup-above now t e [] h q = q
lookup-above now t e ((r, d) ∷ rs) h q = elim (Bool-cases (ltb now d)) [
  | inl k ↦ rw k (elim (Bool-cases (r == t)) [
    | inl m ↦ ground (arith, m, q)
    | inr m ↦ rw m (lookup-above now t e rs h (ground (arith, m, q)))
  ])
  | inr k ↦ rw k (elim (Bool-cases (r == t)) [
    | inl m ↦ absurd (ground (arith, m, q, k, h))
    | inr m ↦ lookup-above now t e rs h (ground (arith, m, q))
  ])
]

pub lookup-upsert : (t e : ℕ) (rs : List (ℕ × ℕ)) → lookup t (upsert t e rs) ≡ some e
lookup-upsert t e [] = ground arith
lookup-upsert t e ((r, d) ∷ rs) = elim (Bool-cases (r == t)) [
  | inl m ↦ rw m (ground arith)
  | inr m ↦ rw m (rw m (lookup-upsert t e rs))
]

pub lookup-upsert_other :
    (t u e d : ℕ) (rs : List (ℕ × ℕ))
    → u ≢ t
    → lookup t rs ≡ some e
    → lookup t (upsert u d rs) ≡ some e
lookup-upsert_other t u e d [] h q = absurd (cc)
lookup-upsert_other t u e d ((r, c) ∷ rs) h q = elim (Bool-cases (r == u)) [
  | inl m ↦ rw m (ground (arith, m, h, q))
  | inr m ↦ rw m (elim (Bool-cases (r == t)) [
    | inl k ↦ rw k (ground (arith, k, q))
    | inr k ↦ rw k (lookup-upsert_other t u e d rs h (ground (arith, k, q)))
  ])
]

pub lookup-remove_other :
    (t u e : ℕ) (rs : List (ℕ × ℕ)) → u ≢ t → lookup t rs ≡ some e → lookup t (remove u rs) ≡ some e
lookup-remove_other t u e [] h q = q
lookup-remove_other t u e ((r, c) ∷ rs) h q = elim (Bool-cases (r == u)) [
  | inl m ↦ rw m (ground (arith, m, h, q))
  | inr m ↦ rw m (elim (Bool-cases (r == t)) [
    | inl k ↦ rw k (ground (arith, k, q))
    | inr k ↦ rw k (lookup-remove_other t u e rs h (ground (arith, k, q)))
  ])
]

-- The key of the readers is there while the lease of one of them runs.
pub lookup-existing :
    (now t e : ℕ) (o : Option ℕ) (rs : List (ℕ × ℕ))
    → Within o rs
    → now < e
    → lookup t rs ≡ some e
    → lookup t (existing now o rs) ≡ some e
lookup-existing now t e none rs w h q = q
lookup-existing now t e (some u) rs w h q = elim (Bool-cases (ltb now u)) [
  | inl k ↦ rw k q
  | inr k ↦ let l = AllLe-lookup u t e rs w q in absurd (ground (arith, k, l, h))
]

-- The reader `t` has the lease until `end` in the sorted set.
abbrev pub Reads : ℕ → ℕ → View → Type 0
Reads t end v = lookup t v.readers ≡ some end

module _ (now t end : ℕ) (h : now < end) where
  pub at-Reads :
      (v : View) → Within v.until v.readers → Reads t end v → lookup t (readers_at now v) ≡ some end
  at-Reads v w q = lookup-existing now t end v.until v.readers w h q

  pub put-Reads :
      (v : View) (rs : List (ℕ × ℕ)) → lookup t rs ≡ some end → Reads t end (put now v rs)
  put-Reads v rs q =
      subst (λ (xs : List (ℕ × ℕ)). lookup t xs ≡ some end) (sym (put-readers now v rs)) q

  pub above-Reads :
      (v : View)
      → Within v.until v.readers
      → Reads t end v
      → Reads t end (documented.zremrangebyscore now now v)
  above-Reads v w q =
      put-Reads v (above now (readers_at now v))
        (lookup-above now t end (readers_at now v) h (at-Reads v w q))

  pub Granted-Reads :
      (e u : ℕ) (v v' : View)
      → u ≢ t
      → Within v.until v.readers
      → Granted now e u v v'
      → Reads t end v
      → Reads t end v'
  Granted-Reads e u v v' d w g q =
      subst (λ (xs : List (ℕ × ℕ)). lookup t xs ≡ some end) (sym g.readers_are)
        (lookup-upsert_other t u end e (readers_at now v) d (at-Reads v w q))
