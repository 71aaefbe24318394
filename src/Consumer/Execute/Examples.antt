-- ===== src/Consumer/Execute/Examples.antt =====
-- A key with two segments. The handler refuses events of one type, and futures run one after another.
use wakuwaku.Base.{ℕ, suc, ◌==◌, ◌≡◌, refl, List, [], ◌∷◌, some, map, if◌then◌else◌}
use wakuwaku.Events.{EventTypeTag, EventAtomicOrdering, relaxed, release, non_associative}
use wakuwaku.Partition.Plan.{KeyPlan, Plan, rank}
use wakuwaku.Partition.Plan.View
use wakuwaku.Partition.Plan.Build.{new}
use wakuwaku.Consumer.Record.{ParsedRecord, plan_records}
use wakuwaku.Consumer.Handler.{RunRecord, RunResult, done, failed}
use wakuwaku.Consumer.Execute.{Stage, run_records, execute_key}
use wakuwaku.Consumer.Execute.Stages.{Results, Told}
use wakuwaku.Consumer.Execute.Report.{Accounts, execute_key-Accounts}

-- A record of key 7, with its tag as payload.
abbrev parsed_of : ℕ → ℕ → EventAtomicOrdering → ParsedRecord
parsed_of offset tag ordering = record {
  offset = offset;
  headers = record {
    tag = tag;
    key = 7;
    properties = record { atomic_level = ordering; associativity = non_associative };
  };
  payload = tag ∷ [];
}

abbrev batch : List ParsedRecord
batch =
    parsed_of 0 1 relaxed
    ∷ parsed_of 1 2 release
    ∷ parsed_of 2 1 relaxed
    ∷ parsed_of 3 3 relaxed
    ∷ parsed_of 4 1 relaxed
    ∷ []

abbrev batch_plan : Plan
batch_plan = new (plan_records batch)

abbrev the_key : KeyPlan
the_key = record { key = 7; segments = record { start = 0; end = 2 } }

-- The world counts the runs; those of type 3 fail, with their payloads as remainder.
abbrev refuse_three : ℕ → EventTypeTag → List RunRecord → ℕ × RunResult ℕ
refuse_three w tag run =
    (suc w, if tag == 3 then failed w (map (λ (r : RunRecord). r.payload) run) else done)

abbrev one_by_one : {W B : Type 0} → List (W → W × B) → W → W × List B
one_by_one [] w = (w, [])
one_by_one (f ∷ fs) w = let (w', b) = f w in let (w'', bs) = one_by_one fs w' in (w'', b ∷ bs)

one_by_one-Results : {W B : Type 0} (fs : List (W → W × B)) (w : W) → Results fs (one_by_one fs w).1
one_by_one-Results [] w = tt
one_by_one-Results (f ∷ fs) w = ((w, refl), one_by_one-Results fs (f w).0)

execute_key-refused : execute_key refuse_three one_by_one batch_plan batch the_key 0 ≡ (
  4,
  record {
    completed = 0 ∷ 1 ∷ 2 ∷ 4 ∷ [];
    failure = some (record {
      segment = 1;
      error = 3;
      failed_runs =
          record { stage = Stage.body 1; records = 3 ∷ []; remainder = (3 ∷ []) ∷ [] } ∷ [];
    });
  },
)
unfolding execute_key new rank plan_records run_records View.segments View.head View.body View.tail
    View.records
execute_key-refused = refl

execute_key-Accounts_example :
    let report = (execute_key refuse_three one_by_one batch_plan batch the_key 0).1 in
    Accounts batch_plan
      (Told refuse_three batch_plan batch)
      (View.segments batch_plan the_key)
      report.completed
      report.failure
execute_key-Accounts_example =
    execute_key-Accounts refuse_three one_by_one one_by_one-Results batch_plan batch the_key 0
