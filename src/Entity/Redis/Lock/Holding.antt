-- ===== src/Entity/Redis/Lock/Holding.antt =====
-- The lease of a holder of a `Lock`, or of the writer of an `RwLock` (wakuwaku-entity/src/redis/collection/lock.rs),
-- from its grant to its end.
use wakuwaku.Base.{
  ℕ, ◌+◌, ◌≤◌, ◌<◌, ◌≡◌, ◌≢◌, refl, sym, ◌∙◌, subst, ltb, Bool, true, false, some, if◌then◌else◌,
  arith,
}
use wakuwaku.Entity.Redis.{millis}
use wakuwaku.Entity.Redis.Lock.{
  Commands, read_acquire, write_acquire, lock_acquire, extend, answer, Op, try_lock, try_read,
  try_write, extend_lock, run_op,
}
use wakuwaku.Entity.Redis.Lock.Documented.{View, documented, Behaves, readers_at, above}
use wakuwaku.Entity.Redis.Lock.Kept.{token_in}
use wakuwaku.Entity.Redis.Lock.Runs.{Run, start, after, view-Run, view-after, answer-after}
use wakuwaku.Entity.Redis.Lock.Writer.{
  Writes, Locks, op-Writes, alive-Writes, locks-Writes, put-Writes,
}

-- A query with another token.
abbrev pub Other : ℕ → Op → Type 0
Other token op = token_in op ≢ token

-- The token has the writer key, which it can extend: nobody else becomes a holder, a writer or a reader.
pub record Holds {S : Type 0} (redis : Commands S) (now token : ℕ) (s : S) : Type 0 where
  pub held : redis.get now s ≡ some token
  pub extensible : (ttl : ℕ) → (run_op redis now (extend_lock token ttl) s).1 ≡ 1
  pub no_lock : (u ttl : ℕ) → (run_op redis now (try_lock u ttl) s).1 ≡ 0
  pub no_writer : (u ttl : ℕ) → (run_op redis now (try_write u ttl) s).1 ≡ 0
  pub no_reader : (u ttl : ℕ) → (run_op redis now (try_read u ttl) s).1 ≡ 0

module _ (now t end : ℕ) (v : View) (h : now < end) (q : Writes t end v) where
  refused :
      (u ttl : ℕ) (v : View)
      → Writes t end v
      → (answer documented (documented.set_nx now u ttl v)).1 ≡ 0
  refused u ttl v q = rw (alive-Writes now t end v h q) refl

  read_refused : (u ttl : ℕ) → (run_op documented now (try_read u ttl) v).1 ≡ 0
  unfolding run_op read_acquire
  read_refused u ttl = rw (alive-Writes now t end v h q) refl

  write_refused : (u ttl : ℕ) → (run_op documented now (try_write u ttl) v).1 ≡ 0
  unfolding run_op write_acquire
  write_refused u ttl = of (ltb 0 (documented.zcard now p))
    where
      p : View
      p = documented.zremrangebyscore now now v

      of :
          (b : Bool)
          → (if b then (p, 0) else answer documented (documented.set_nx now u (millis ttl) p)).1 ≡ 0
      of true = refl
      of false =
          refused u (millis ttl) p (put-Writes now t end h v (above now (readers_at now v)) q)

  extend_granted : (ttl : ℕ) → (run_op documented now (extend_lock t ttl) v).1 ≡ 1
  unfolding run_op extend
  extend_granted ttl = rw (alive-Writes now t end v h q) (ground arith)

  lock_refused : (u ttl : ℕ) → (run_op documented now (try_lock u ttl) v).1 ≡ 0
  unfolding run_op lock_acquire
  lock_refused u ttl = refused u (millis ttl) v q

Run-Writes :
    (begin t end : ℕ) (v : View) (now : ℕ) (v' : View)
    → Run documented (Other t) begin v now v'
    → Writes t end v
    → now < end
    → Writes t end v'
Run-Writes begin t end v now v' start q h = q
Run-Writes begin t end v later v1 (after now v' _ op r l o) q h =
    op-Writes later t end h op v' o (Run-Writes begin t end v now v' r q (omega arith))

-- A lease that `try_lock`, `try_write` or `extend` grants, on any state, runs for its whole time, whatever the
-- queries with other tokens are: until its end the key has the token, which can extend the lease, and no
-- other client gets the lock, be it as the holder of a `Lock`, as a writer or as a reader. The
-- commands behave as documented and the server's time doesn't go back.
pub lease-Holds :
    {S : Type 0} (redis : Commands S) (view : S → View) (b : Behaves redis view) (s : S)
    (token ttl granted : ℕ) (op : Op)
    → Locks token ttl op
    → (run_op redis granted op s).1 ≡ 1
    → (last : ℕ) (s' : S) → Run redis (Other token) granted (run_op redis granted op s).0 last s'
    → (later : ℕ) → last ≤ later
    → later < granted + millis ttl
    → Holds redis later token s'
lease-Holds redis view b s token ttl granted op locks one last s' others later m h =
    let o =
      subst (λ (v : View). Run documented (Other token) granted v last (view s'))
        (view-after redis view b granted op s)
        (view-Run redis view b (Other token) granted (run_op redis granted op s).0 last s'
          others) in
    let q =
      Run-Writes granted token (granted + millis ttl) (run_op documented granted op (view s)).0 last
        (view s') o
        (locks-Writes granted token ttl op (view s) locks
          (sym (answer-after redis view b granted op s) ∙ one))
        (omega arith) in
    record {
      held =
          b.get_is later s'
          ∙ rw (alive-Writes later token (granted + millis ttl) (view s') h q) refl;
      extensible = λ e.
          answer-after redis view b later (extend_lock token e) s'
          ∙ extend_granted later token (granted + millis ttl) (view s') h q e;
      no_lock = λ u e.
          answer-after redis view b later (try_lock u e) s'
          ∙ lock_refused later token (granted + millis ttl) (view s') h q u e;
      no_writer = λ u e.
          answer-after redis view b later (try_write u e) s'
          ∙ write_refused later token (granted + millis ttl) (view s') h q u e;
      no_reader = λ u e.
          answer-after redis view b later (try_read u e) s'
          ∙ read_refused later token (granted + millis ttl) (view s') h q u e;
    }
