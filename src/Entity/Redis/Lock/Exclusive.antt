-- ===== src/Entity/Redis/Lock/Exclusive.antt =====
-- The writer and the readers of an `RwLock` (wakuwaku-entity/src/redis/collection/lock.rs) exclude each other:
-- the invariant that each of its queries keeps.
use wakuwaku.Base.{
  ℕ, ◌≤◌, ◌≡◌, refl, sym, ap, subst, ltb, Bool, true, false, List, [], ◌∷◌, Option, none, some,
  if◌then◌else◌, Bool-cases, ◌⊎◌, inl, inr, arith,
}
use wakuwaku.Entity.Redis.Lock.{answer}
use wakuwaku.Entity.Redis.Lock.Documented.{
  View, documented, alive, existing, readers_at, above, remove, put,
}
use wakuwaku.Entity.Redis.Lock.Readers.{Within, Within-above, Within-remove, Granted}

-- The lease of the writer is over, or there are no readers.
abbrev pub Calm : ℕ → Option (ℕ × ℕ) → List (ℕ × ℕ) → Type 0
Calm now none rs = Unit {0}
Calm now (some (t, e)) rs = (e ≤ now) ⊎ (rs ≡ [])

pub record Inv (now : ℕ) (v : View) : Type 0 where
  pub within : Within v.until v.readers
  pub calm : Calm now v.writer v.readers

Calm-mono :
    (now later : ℕ) (w : Option (ℕ × ℕ)) (rs : List (ℕ × ℕ))
    → now ≤ later
    → Calm now w rs
    → Calm later w rs
Calm-mono now later none rs h c = tt
Calm-mono now later (some (t, e)) rs h (inl q) = inl (omega arith)
Calm-mono now later (some (t, e)) rs h (inr a) = inr a

pub Inv-later : (now later : ℕ) (v : View) → now ≤ later → Inv now v → Inv later v
Inv-later now later v h i = record {
  within = i.within;
  calm = Calm-mono now later v.writer v.readers h i.calm;
}

Calm-part :
    (now : ℕ) (w : Option (ℕ × ℕ)) (xs ys : List (ℕ × ℕ))
    → (xs ≡ [] → ys ≡ [])
    → Calm now w xs
    → Calm now w ys
Calm-part now none xs ys f c = tt
Calm-part now (some (t, e)) xs ys f (inl q) = inl q
Calm-part now (some (t, e)) xs ys f (inr a) = inr (f a)

pub Calm-over :
    (now : ℕ) (w : Option (ℕ × ℕ)) (rs : List (ℕ × ℕ)) → alive now w ≡ none → Calm now w rs
Calm-over now none rs q = tt
Calm-over now (some (t, e)) rs q = elim (Bool-cases (ltb now e)) [
  | inl k ↦ absurd (ground (arith, k, q))
  | inr k ↦ inl (ground (arith, k))
]

pub Calm-alive :
    (now : ℕ) (w : Option (ℕ × ℕ)) (rs : List (ℕ × ℕ)) (t e : ℕ)
    → alive now w ≡ some (t, e)
    → Calm now w rs
    → rs ≡ []
Calm-alive now none rs t e q c = absurd (cc)
Calm-alive now (some (u, d)) rs t e q (inr a) = a
Calm-alive now (some (u, d)) rs t e q (inl l) = elim (Bool-cases (ltb now d)) [
  | inl k ↦ absurd (ground (arith, k, l))
  | inr k ↦ absurd (ground (arith, k, q))
]

pub put-writer : (now : ℕ) (v : View) (rs : List (ℕ × ℕ)) → (put now v rs).writer ≡ v.writer
put-writer now v [] = refl
put-writer now v (r ∷ rs) = refl

pub put-readers : (now : ℕ) (v : View) (rs : List (ℕ × ℕ)) → (put now v rs).readers ≡ rs
put-readers now v [] = refl
put-readers now v (r ∷ rs) = refl

pub existing_none : (now : ℕ) (o : Option ℕ) (rs : List (ℕ × ℕ)) → rs ≡ [] → existing now o rs ≡ []
existing_none now none rs a = a
existing_none now (some u) rs a = elim (Bool-cases (ltb now u)) [
  | inl k ↦ rw k a
  | inr k ↦ rw k refl
]

-- The sorted set is left with a part of its members.
pub put-Calm :
    (now : ℕ) (v : View) (rs : List (ℕ × ℕ))
    → (readers_at now v ≡ [] → rs ≡ [])
    → Calm now v.writer v.readers
    → Calm now (put now v rs).writer (put now v rs).readers
put-Calm now v rs f c =
    subst (λ (w : Option (ℕ × ℕ)). Calm now w (put now v rs).readers) (sym (put-writer now v rs))
      (subst (Calm now v.writer) (sym (put-readers now v rs))
        (Calm-part now v.writer v.readers rs (λ a. f (existing_none now v.until v.readers a)) c))

pub above-Inv : (now : ℕ) (v : View) → Inv now v → Inv now (documented.zremrangebyscore now now v)
above-Inv now v i = record {
  within = Within-above now v i.within;
  calm = put-Calm now v (above now (readers_at now v)) (λ a. ap (above now) a) i.calm;
}

pub remove-Inv : (now t : ℕ) (v : View) → Inv now v → Inv now (documented.zrem now t v)
remove-Inv now t v i = record {
  within = Within-remove now t v i.within;
  calm = put-Calm now v (remove t (readers_at now v)) (λ a. ap (remove t) a) i.calm;
}

-- A lease that is granted to a reader while there is no writer.
pub Granted-Inv :
    (now end t : ℕ) (v v' : View) → alive now v.writer ≡ none → Granted now end t v v' → Inv now v'
Granted-Inv now end t v v' q g = record {
  within = subst (λ (o : Option ℕ). Within o v'.readers) (sym g.until_is) g.within;
  calm =
      subst (λ (w : Option (ℕ × ℕ)). Calm now w v'.readers) (sym g.writer_is)
        (Calm-over now v.writer v'.readers q);
}

pub if-Inv :
    (now : ℕ) (b : Bool) (x y : View × ℕ)
    → (b ≡ true → Inv now x.0)
    → (b ≡ false → Inv now y.0)
    → Inv now (if b then x else y).0
if-Inv now true x y f g = f refl
if-Inv now false x y f g = g refl

pub answer-0 : (x : View × Bool) → (answer documented x).0 ≡ x.0
answer-0 (v, b) = refl
