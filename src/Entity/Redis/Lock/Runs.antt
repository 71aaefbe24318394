-- ===== src/Entity/Redis/Lock/Runs.antt =====
-- Sequences of queries of one lock (wakuwaku-entity/src/redis/collection/lock.rs), from any number of clients:
-- a script runs alone, at the server's time.
use wakuwaku.Base.{ℕ, ◌≤◌, ◌≡◌, sym, ap, subst}
use wakuwaku.Entity.Redis.Lock.{Commands, Op, run_op}
use wakuwaku.Entity.Redis.Lock.Documented.{View, documented, Behaves}
use wakuwaku.Entity.Redis.Lock.Seen.{run_op-seen}

-- The states that queries for which `ok` holds reach from a state at a time, and the time.
pub data Run {S : Type 0} (redis : Commands S) (ok : Op → Type 0) (begin : ℕ) (s0 : S)
    : ℕ → S → Type 0 where
  start : Run redis ok begin s0 begin s0
  after :
      (now : ℕ) (s : S) (later : ℕ) (op : Op)
      → Run redis ok begin s0 now s
      → now ≤ later
      → ok op
      → Run redis ok begin s0 later (run_op redis later op s).0

module _ {S : Type 0} (redis : Commands S) (view : S → View) (b : Behaves redis view) where
  pub view-after :
      (now : ℕ) (op : Op) (s : S)
      → view (run_op redis now op s).0 ≡ (run_op documented now op (view s)).0
  view-after now op s = ap (λ (x : View × ℕ). x.0) (run_op-seen redis view b now op s)

  pub answer-after :
      (now : ℕ) (op : Op) (s : S)
      → (run_op redis now op s).1 ≡ (run_op documented now op (view s)).1
  answer-after now op s = ap (λ (x : View × ℕ). x.1) (run_op-seen redis view b now op s)

  -- What is seen of the states of a run is a run of the documented commands.
  pub view-Run :
      (ok : Op → Type 0) (begin : ℕ) (s0 : S) (now : ℕ) (s : S)
      → Run redis ok begin s0 now s
      → Run documented ok begin (view s0) now (view s)
  view-Run ok begin s0 now s start = start
  view-Run ok begin s0 later s1 (after now s _ op r h o) =
      subst (Run documented ok begin (view s0) later) (sym (view-after later op s))
        (after now (view s) later op (view-Run ok begin s0 now s r) h o)
