-- ===== src/Entity/Redis/Lock/Apart.antt =====
-- The writer and the readers of an `RwLock` (wakuwaku-entity/src/redis/collection/lock.rs) exclude each other,
-- whatever the order of the queries.
use wakuwaku.Base.{ℕ, ◌≤◌, ◌≡◌, refl, sym, ap, subst, some, none, ◌∙◌, true, Option-cases, inl, inr}
use wakuwaku.Entity.Redis.Lock.{Commands, Op}
use wakuwaku.Entity.Redis.Lock.Documented.{
  View, documented, nothing, Behaves, alive, token_of, lookup,
}
use wakuwaku.Entity.Redis.Lock.Exclusive.{Inv, Inv-later, Calm-alive, existing_none}
use wakuwaku.Entity.Redis.Lock.Steps.{run_op-Inv, is_shared}
use wakuwaku.Entity.Redis.Lock.Runs.{Run, start, after, view-Run}

-- Queries of an `RwLock`.
abbrev pub Shared : Op → Type 0
Shared op = is_shared op ≡ true

pub Run-Inv :
    (begin : ℕ) (now : ℕ) (v : View) → Run documented Shared begin nothing now v → Inv now v
Run-Inv begin now v start = record { within = refl; calm = tt }
Run-Inv begin later v1 (after now v _ op r h o) =
    run_op-Inv later op v o (Inv-later now later v h (Run-Inv begin now v r))

apart :
    (now : ℕ) (v : View) (t r : ℕ)
    → Inv now v
    → documented.get now v ≡ some t
    → documented.zscore now r v ≡ none
apart now v t r i g = elim (Option-cases (alive now v.writer)) [
  | inl n ↦ absurd (cc (g, ap token_of n))
  | inr ((u, d), k) ↦
      ap (lookup r)
        (existing_none now v.until v.readers (Calm-alive now v.writer v.readers u d k i.calm))
]

module _ {S : Type 0} (redis : Commands S) (view : S → View) (b : Behaves redis view) where
  -- While a writer holds an `RwLock` that no plain `try_lock` uses, the sorted set has no reader. This holds from
  -- an empty state, after any queries of any clients and at any time after them, where the commands
  -- behave as documented and the server's time doesn't go back.
  pub writer-Apart :
      (begin : ℕ) (s0 : S) (now : ℕ) (s : S)
      → view s0 ≡ nothing
      → Run redis Shared begin s0 now s
      → (later t r : ℕ) → now ≤ later
      → redis.get later s ≡ some t
      → redis.zscore later r s ≡ none
  writer-Apart begin s0 now s empty run later t r h g =
      b.zscore_is later r s
      ∙ apart later (view s) t r
          (Inv-later now later (view s) h (
            Run-Inv begin now (view s) (
              subst (λ (v : View). Run documented Shared begin v now (view s)) empty
                (view-Run redis view b Shared begin s0 now s run))))
          (sym (b.get_is later s) ∙ g)
