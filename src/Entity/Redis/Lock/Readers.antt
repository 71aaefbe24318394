-- ===== src/Entity/Redis/Lock/Readers.antt =====
-- The sorted set of readers (wakuwaku-entity/src/redis/collection/lock.rs): scores and the expiry of its key.
use wakuwaku.Base.{
  ℕ, ◌+◌, ◌-◌, ◌==◌, ◌≤◌, ◌≡◌, refl, sym, ap, subst, ltb, Bool, true, false, List, [], ◌∷◌, Option,
  none, some, if◌then◌else◌, Bool-cases, inl, inr, arith,
}
use wakuwaku.Entity.Redis.Lock.{prolong}
use wakuwaku.Entity.Redis.Lock.Documented.{
  View, documented, existing, unexpired, readers_at, lookup, above, upsert, remove, put,
}

-- No score is above `n`.
abbrev pub AllLe : ℕ → List (ℕ × ℕ) → Type 0
AllLe n [] = Unit {0}
AllLe n ((t, e) ∷ rs) = (e ≤ n) × AllLe n rs

pub AllLe-mono : (m n : ℕ) (rs : List (ℕ × ℕ)) → m ≤ n → AllLe m rs → AllLe n rs
AllLe-mono m n [] h a = tt
AllLe-mono m n ((t, e) ∷ rs) h (l, a) = (omega arith, AllLe-mono m n rs h a)

AllLe-if :
    (m : ℕ) (b : Bool) (xs ys : List (ℕ × ℕ))
    → AllLe m xs
    → AllLe m ys
    → AllLe m (if b then xs else ys)
AllLe-if m true xs ys a c = a
AllLe-if m false xs ys a c = c

pub AllLe-above : (m n : ℕ) (rs : List (ℕ × ℕ)) → AllLe m rs → AllLe m (above n rs)
AllLe-above m n [] a = tt
AllLe-above m n ((t, e) ∷ rs) (l, a) =
    AllLe-if m (ltb n e) ((t, e) ∷ above n rs) (above n rs) (l, AllLe-above m n rs a)
      (AllLe-above m n rs a)

pub AllLe-remove : (m t : ℕ) (rs : List (ℕ × ℕ)) → AllLe m rs → AllLe m (remove t rs)
AllLe-remove m t [] a = tt
AllLe-remove m t ((r, e) ∷ rs) (l, a) =
    AllLe-if m (r == t) rs ((r, e) ∷ remove t rs) a (l, AllLe-remove m t rs a)

AllLe-upsert : (m t d : ℕ) (rs : List (ℕ × ℕ)) → d ≤ m → AllLe m rs → AllLe m (upsert t d rs)
AllLe-upsert m t d [] h a = (h, tt)
AllLe-upsert m t d ((r, e) ∷ rs) h (l, a) =
    AllLe-if m (r == t) ((t, d) ∷ rs) ((r, e) ∷ upsert t d rs) (h, a) (l, AllLe-upsert m t d rs h a)

pub AllLe-lookup : (m t e : ℕ) (rs : List (ℕ × ℕ)) → AllLe m rs → lookup t rs ≡ some e → e ≤ m
AllLe-lookup m t e [] a h = absurd (cc)
AllLe-lookup m t e ((r, d) ∷ rs) (l, a) h = elim (Bool-cases (r == t)) [
  | inl q ↦ ground (arith, q, h)
  | inr q ↦ AllLe-lookup m t e rs a (ground (arith, q, h))
]

pub AllLe-existing :
    (m now : ℕ) (o : Option ℕ) (rs : List (ℕ × ℕ)) → AllLe m rs → AllLe m (existing now o rs)
AllLe-existing m now none rs a = a
AllLe-existing m now (some u) rs a = AllLe-if m (ltb now u) rs [] a tt

-- The readers' key lives at least as long as the leases.
abbrev pub Within : Option ℕ → List (ℕ × ℕ) → Type 0
Within none rs = rs ≡ []
Within (some u) rs = AllLe u rs

-- Part of the readers: no score that was not there before.
abbrev Part : List (ℕ × ℕ) → List (ℕ × ℕ) → Type 0
Part xs ys = ((m : ℕ) → AllLe m xs → AllLe m ys) × (xs ≡ [] → ys ≡ [])

Within-put :
    (now : ℕ) (v : View) (rs : List (ℕ × ℕ))
    → Within v.until v.readers
    → Part (readers_at now v) rs
    → Within (put now v rs).until (put now v rs).readers
Within-put now v [] w p = refl
Within-put now v (r ∷ rs) w p = go v.until w p
  where
    go :
        (o : Option ℕ)
        → Within o v.readers
        → Part (existing now o v.readers) (r ∷ rs)
        → Within (unexpired now o) (r ∷ rs)
    go none w (f, g) = absurd (cc (g w))
    go (some u) w (f, g) = elim (Bool-cases (ltb now u)) [
      | inl e ↦ rw e (f u (rw e w))
      | inr e ↦ absurd (cc (g (ap (λ (b : Bool). if b then v.readers else []) e)))
    ]

pub Within-above :
    (now : ℕ) (v : View)
    → Within v.until v.readers
    → Within
        (put now v (above now (readers_at now v))).until
        (put now v (above now (readers_at now v))).readers
Within-above now v w =
    Within-put now v (above now (readers_at now v)) w
      (λ m a. AllLe-above m now (readers_at now v) a, λ e. ap (above now) e)

pub Within-remove :
    (now t : ℕ) (v : View)
    → Within v.until v.readers
    → Within
        (put now v (remove t (readers_at now v))).until
        (put now v (remove t (readers_at now v))).readers
Within-remove now t v w =
    Within-put now v (remove t (readers_at now v)) w
      (λ m a. AllLe-remove m t (readers_at now v) a, λ e. ap (remove t) e)

upsert-cons :
    (t e : ℕ) (rs : List (ℕ × ℕ)) → (r : ℕ × ℕ) × (xs : List (ℕ × ℕ)) × (upsert t e rs ≡ r ∷ xs)
upsert-cons t e [] = ((t, e), [], refl)
upsert-cons t e ((r, d) ∷ rs) = kept (r == t)
  where
    kept :
        (b : Bool)
        → (q : ℕ × ℕ) × (xs : List (ℕ × ℕ)) × ((if b then (t, e) ∷ rs else (r, d) ∷ upsert t e rs)
            ≡ q ∷ xs)
    kept true = ((t, e), rs, refl)
    kept false = ((r, d), upsert t e rs, refl)

-- What is left of a view when a lease was granted to a reader until `end`.
pub record Granted (now end token : ℕ) (v v' : View) : Type 0 where
  pub writer_is : v'.writer ≡ v.writer
  pub readers_are : v'.readers ≡ upsert token end (readers_at now v)
  pub until : ℕ
  pub until_is : v'.until ≡ some until
  pub long : end ≤ until
  pub within : AllLe until v'.readers

module _ (now ttl token : ℕ) (v : View) (r : ℕ × ℕ) (xs : List (ℕ × ℕ)) where
  -- The view with the readers `r ∷ xs`, whose key lives until `u`.
  abbrev lasting : ℕ → View
  lasting u = record { writer = v.writer; readers = r ∷ xs; until = some u }

  abbrev after : Option ℕ → View
  after o = prolong documented now ttl (put now (record v { until = o }) (r ∷ xs))

  after_expired : (u : ℕ) → ltb now u ≡ false → after (some u) ≡ lasting (now + ttl)
  unfolding prolong
  after_expired u q = rw (prolong, q) refl

  after_short :
      (u : ℕ) → ltb now u ≡ true → ltb (u - now) ttl ≡ true → after (some u) ≡ lasting (now + ttl)
  unfolding prolong
  after_short u q k = rw (prolong, q) (rw (q, k) refl)

  after_long : (u : ℕ) → ltb now u ≡ true → ltb (u - now) ttl ≡ false → after (some u) ≡ lasting u
  unfolding prolong
  after_long u q k = rw (prolong, q) (rw (q, k) refl)

  Granted-until :
      (o : Option ℕ) (u : ℕ)
      → upsert token (now + ttl) (existing now o v.readers) ≡ r ∷ xs
      → now + ttl ≤ u
      → AllLe u (existing now o v.readers)
      → after o ≡ lasting u
      → Granted now (now + ttl) token (record v { until = o }) (after o)
  Granted-until o u e l a p =
      subst (Granted now (now + ttl) token (record v { until = o })) (sym p) (record {
        writer_is = refl;
        readers_are = sym e;
        until = u;
        until_is = refl;
        long = l;
        within =
            subst (AllLe u) e (AllLe-upsert u token (now + ttl) (existing now o v.readers) l a);
      })

  prolonged :
      (o : Option ℕ)
      → upsert token (now + ttl) (existing now o v.readers) ≡ r ∷ xs
      → Within o v.readers
      → Granted now (now + ttl) token (record v { until = o }) (after o)
  unfolding prolong
  prolonged none e w =
      Granted-until none (now + ttl) e (omega arith) (subst (AllLe (now + ttl)) (sym w) tt) refl
  prolonged (some u) e w = elim (Bool-cases (ltb now u)) [
    | inr q ↦
        Granted-until (some u) (now + ttl) e (omega arith)
          (subst (λ (b : Bool). AllLe (now + ttl) (if b then v.readers else [])) (sym q) tt)
          (after_expired u q)
    | inl q ↦ elim (Bool-cases (ltb (u - now) ttl)) [
      | inl k ↦
          Granted-until (some u) (now + ttl) e (omega arith)
            (AllLe-existing (now + ttl) now (some u) v.readers
              (AllLe-mono u (now + ttl) v.readers (ground (arith, k)) w))
            (after_short u q k)
      | inr k ↦
          Granted-until (some u) u e (ground (arith, q, k))
            (AllLe-existing u now (some u) v.readers w) (after_long u q k)
    ]
  ]

-- Adding a reader, or renewing its lease.
pub zadd-Granted :
    (now ttl token : ℕ) (v : View)
    → Within v.until v.readers
    → Granted now
        (now + ttl)
        token
        v
        (prolong documented now ttl (put now v (upsert token (now + ttl) (readers_at now v))))
zadd-Granted now ttl token v w =
    let (r, xs, e) = upsert-cons token (now + ttl) (readers_at now v) in
    subst
      (λ (rs : List (ℕ × ℕ)).
        Granted now (now + ttl) token v (prolong documented now ttl (put now v rs)))
      (sym e) (prolonged now ttl token v r xs v.until e w)
