-- ===== src/Entity/Redis/Lock/Leases.antt =====
-- The leases of the readers of an `RwLock` (wakuwaku-entity/src/redis/collection/lock.rs), from their grant to
-- their end.
use wakuwaku.Base.{
  ℕ, ◌+◌, ◌≤◌, ◌<◌, ◌≡◌, ◌≢◌, refl, sym, ◌∙◌, subst, ltb, Bool, true, false, List, [], ◌∷◌, Option,
  some, length, if◌then◌else◌, arith,
}
use wakuwaku.Entity.Redis.{millis}
use wakuwaku.Entity.Redis.Lock.{
  Commands, write_acquire, read_extend, extend_read_of, Op, try_write, extend_read, run_op,
}
use wakuwaku.Entity.Redis.Lock.Documented.{View, documented, nothing, Behaves, readers_at, lookup}
use wakuwaku.Entity.Redis.Lock.Exclusive.{Inv, Inv-later, above-Inv}
use wakuwaku.Entity.Redis.Lock.Steps.{run_op-Inv}
use wakuwaku.Entity.Redis.Lock.Kept.{token_in, Reads, at-Reads, above-Reads}
use wakuwaku.Entity.Redis.Lock.Runs.{Run, start, after, view-Run, view-after, answer-after}
use wakuwaku.Entity.Redis.Lock.Apart.{Shared, Run-Inv}
use wakuwaku.Entity.Redis.Lock.Reader.{Leases, tried, renewed, op-Reads, lease-Reads}

-- The queries of an `RwLock` with other tokens.
pub record Others (token : ℕ) (op : Op) : Type 0 where
  pub shared : Shared op
  pub other : token_in op ≢ token

-- The reader `token` has its lease until `end`: it can renew it, and there is no writer.
pub record ReaderHolds {S : Type 0} (redis : Commands S) (now token end : ℕ) (s : S) : Type 0 where
  pub running : redis.zscore now token s ≡ some end
  pub renewable : (ttl : ℕ) → (run_op redis now (extend_read token ttl) s).1 ≡ 1
  pub no_writer : (u ttl : ℕ) → (run_op redis now (try_write u ttl) s).1 ≡ 0

Leases-Shared : (token ttl : ℕ) (op : Op) → Leases token ttl op → Shared op
Leases-Shared token ttl op tried = refl
Leases-Shared token ttl op renewed = refl

if_snd :
    {A : Type 0} (b : Bool) (x y : A × ℕ) (n : ℕ) → b ≡ true → x.1 ≡ n → (if b then x else y).1 ≡ n
if_snd true x y n k q = q
if_snd false x y n k q = absurd (cc)

lookup-length : (t e : ℕ) (rs : List (ℕ × ℕ)) → lookup t rs ≡ some e → ltb 0 (length rs) ≡ true
lookup-length t e [] q = absurd (cc)
lookup-length t e (r ∷ rs) q = ground arith

module _ (now t end : ℕ) (v : View) (h : now < end) (i : Inv now v) (q : Reads t end v) where
  holds_renewable : (ttl : ℕ) → (run_op documented now (extend_read t ttl) v).1 ≡ 1
  unfolding run_op read_extend extend_read_of
  holds_renewable ttl =
      subst (λ (o : Option ℕ). (extend_read_of documented now t (millis ttl) v o).1 ≡ 1)
        (sym (at-Reads now t end h v i.within q))
        (if_snd (ltb now end) _ (v, 0) 1 (ground (arith, h)) refl)

  holds_alone : (u ttl : ℕ) → (run_op documented now (try_write u ttl) v).1 ≡ 0
  unfolding run_op write_acquire
  holds_alone u ttl =
      let p = documented.zremrangebyscore now now v in
      let r = above-Reads now t end h v i.within q in
      if_snd (ltb 0 (documented.zcard now p)) (p, 0) _ 0
        (lookup-length t end (readers_at now p)
          (at-Reads now t end h p (above-Inv now v i).within r))
        refl

Run-Reads :
    (begin t end : ℕ) (v : View) (now : ℕ) (v' : View)
    → Run documented (Others t) begin v now v'
    → Inv begin v
    → Reads t end v
    → now < end
    → Inv now v' × Reads t end v'
Run-Reads begin t end v now v' start i q h = (i, q)
Run-Reads begin t end v later v1 (after now v' _ op r l o) i q h =
    let (j, p) = Run-Reads begin t end v now v' r i q (omega arith) in
    let k = Inv-later now later v' l j in
    (run_op-Inv later op v' o.shared k, op-Reads later t end h op v' o.other k.within p)

-- A read lease that a query of an `RwLock` grants or renews, on a state that queries of the lock reached from an
-- empty one, runs for its whole time, whatever the queries with other tokens are: until its end the
-- sorted set has the reader with that end, the reader can renew the lease, and no client becomes the
-- writer. The commands behave as documented, the lock is used by no plain `try_lock`, and the
-- server's time doesn't go back.
pub lease-ReaderHolds :
    {S : Type 0} (redis : Commands S) (view : S → View) (b : Behaves redis view) (begin : ℕ)
    (s0 : S) (now : ℕ) (s : S)
    → view s0 ≡ nothing
    → Run redis Shared begin s0 now s
    → (token ttl granted : ℕ) (op : Op) → now ≤ granted
    → Leases token ttl op
    → (run_op redis granted op s).1 ≡ 1
    → (last : ℕ) (s' : S) → Run redis (Others token) granted (run_op redis granted op s).0 last s'
    → (later : ℕ) → last ≤ later
    → later < granted + millis ttl
    → ReaderHolds redis later token (granted + millis ttl) s'
lease-ReaderHolds redis view b begin s0 now s empty run token ttl granted op l grants one last s'
      others later m h =
    let r =
      subst (λ (v : View). Run documented Shared begin v now (view s)) empty
        (view-Run redis view b Shared begin s0 now s run) in
    let i = Inv-later now granted (view s) l (Run-Inv begin now (view s) r) in
    let v1 = (run_op documented granted op (view s)).0 in
    let o =
      subst (λ (v : View). Run documented (Others token) granted v last (view s'))
        (view-after redis view b granted op s)
        (view-Run redis view b (Others token) granted (run_op redis granted op s).0 last s'
          others) in
    let (j, q) =
      Run-Reads granted token (granted + millis ttl) v1 last (view s') o
        (run_op-Inv granted op (view s) (Leases-Shared token ttl op grants) i)
        (lease-Reads granted token ttl op (view s) grants i.within
          (sym (answer-after redis view b granted op s) ∙ one))
        (omega arith) in
    let k = Inv-later last later (view s') m j in
    record {
      running =
          b.zscore_is later token s'
          ∙ at-Reads later token (granted + millis ttl) h (view s') k.within q;
      renewable = λ e.
          answer-after redis view b later (extend_read token e) s'
          ∙ holds_renewable later token (granted + millis ttl) (view s') h k q e;
      no_writer = λ u e.
          answer-after redis view b later (try_write u e) s'
          ∙ holds_alone later token (granted + millis ttl) (view s') h k q u e;
    }
