-- ===== src/Consumer/Runtime/Retries/Attempted.antt =====
-- What an attempt on the pending records of one key does (`attempt` of
-- wakuwaku-iggy/src/consumer/runtime.rs).
use mathlib.Core.List.{Perm}
use wakuwaku.Base.{
  ℕ, ◌≡◌, ◌≤◌, refl, sym, ◌∙◌, subst, List, [], ◌∷◌, Option, none, some, length, arith, append-nil,
}
use wakuwaku.Partition.Plan.{KeyPlan, Run, Plan}
use wakuwaku.Partition.Plan.View
use wakuwaku.Partition.Plan.Build.{new}
use wakuwaku.Partition.Plan.Order.{range}
use wakuwaku.Partition.Plan.Reading.{keys_records}
use wakuwaku.Partition.Plan.Assign.Each.{AllKey, assign_segments-one_key}
use wakuwaku.Partition.Plan.Tiling.Complete.{new-keys, new-exact}
use wakuwaku.Consumer.Record.{ParsedRecord, plan_records}
use wakuwaku.Consumer.Execute.{KeyFailure}
use wakuwaku.Consumer.Execute.Report.{SegmentsDone, Accounts, execute_key-Accounts}
use wakuwaku.Consumer.Execute.Stages.{Results, Told}
use wakuwaku.Consumer.Handler.{RunResult}
use wakuwaku.Consumer.Runtime.{Handlers}
use wakuwaku.Consumer.Runtime.Batch.Accounts.{length-plan_records}
use wakuwaku.Consumer.Runtime.Retries.{attempt, attempt_first}

-- The records are all of one key.
abbrev pub OfKey : ℕ → List ParsedRecord → Type 0
OfKey k [] = Unit {0}
OfKey k (r ∷ rs) = (r.headers.key ≡ k) × OfKey k rs

plan_records-AllKey : (k : ℕ) (rs : List ParsedRecord) → OfKey k rs → AllKey k (plan_records rs)
unfolding plan_records
plan_records-AllKey k [] a = tt
plan_records-AllKey k (r ∷ rs) (e, a) = (e, plan_records-AllKey k rs a)

module _ {Err : Type 0} (plan : Plan) (told : Run → RunResult Err → Type 0) where
  -- The handler told of each run of the keys that it is done.
  abbrev pub KeysDone : List KeyPlan → Type 0
  KeysDone [] = Unit {0}
  KeysDone (key ∷ keys) = SegmentsDone plan told (View.segments plan key) × KeysDone keys

  -- What an attempt on `n` records reports: all of them are completed, or the only key of the plan failed
  -- and the report accounts for its records.
  abbrev pub Attempted : ℕ → List ℕ → Option (KeyFailure Err) → Type 0
  Attempted n completed none = Perm completed (range 0 n) × KeysDone plan.keys
  Attempted n completed (some failure) =
      (key : KeyPlan) × (plan.keys ≡ key ∷ [])
      × Accounts plan told (View.segments plan key) completed (some failure)

  Accounts-Attempted :
      (n : ℕ) (key : KeyPlan) (completed : List ℕ) (failure : Option (KeyFailure Err))
      → plan.keys ≡ key ∷ []
      → Perm (keys_records plan (key ∷ [])) (range 0 n)
      → Accounts plan told (View.segments plan key) completed failure
      → Attempted n completed failure
  Accounts-Attempted n key completed none e p (a, d) = (
    subst (λ (is : List ℕ). Perm is (range 0 n)) (append-nil _ ∙ sym a) p,
    subst KeysDone (sym e) (d, tt),
  )
  Accounts-Attempted n key completed (some failure) e p a = (key, e, a)

module _ {W Err : Type 0} (handlers : Handlers W Err)
    (in_order : (B : Type 0) (futures : List (W → W × B)) (w : W)
      → Results futures (handlers.join_all futures w).1) where
  attempt_first-Attempted :
      (plan : Plan) (records : List ParsedRecord) (w : W) (keys : List KeyPlan)
      → plan.keys ≡ keys
      → length keys ≤ 1
      → Perm (keys_records plan keys) (range 0 (length records))
      → let report = (attempt_first handlers plan records keys w).1 in
        Attempted plan
          (Told handlers.handle_run plan records)
          (length records)
          report.completed
          report.failure
  unfolding attempt_first
  attempt_first-Attempted plan records w [] e l p =
      (p, subst (KeysDone plan (Told handlers.handle_run plan records)) (sym e) tt)
  attempt_first-Attempted plan records w (key ∷ k2 ∷ keys) e l p = absurd (omega arith)
  attempt_first-Attempted plan records w (key ∷ []) e l p =
      Accounts-Attempted plan (Told handlers.handle_run plan records) (length records) key _ _ e p (
        execute_key-Accounts handlers.handle_run handlers.join_all (in_order (RunResult Err)) plan
          records key w)

  -- For records of one key, the plan of an attempt has no second key. Without a failure the handler told of every
  -- run of the plan that it is done, and the attempt completes all the records, each once; with one, its
  -- report accounts for the records of that key, by what the handler told of their runs. Each result of
  -- `join_all` is one of its own future.
  pub attempt-Attempted :
      (k : ℕ) (records : List ParsedRecord) (w : W)
      → OfKey k records
      → let report = (attempt handlers records w).1 in
        Attempted
          (new (plan_records records))
          (Told handlers.handle_run (new (plan_records records)) records)
          (length records)
          report.completed
          report.failure
  unfolding attempt
  attempt-Attempted k records w a =
      let plan = new (plan_records records) in
      attempt_first-Attempted plan records w plan.keys refl
        (omega (
          arith,
          new-keys (plan_records records),
          assign_segments-one_key k (plan_records records) (plan_records-AllKey k records a),
        ))
        (subst (λ (n : ℕ). Perm (keys_records plan plan.keys) (range 0 n))
          (length-plan_records records) (new-exact (plan_records records)).1)
