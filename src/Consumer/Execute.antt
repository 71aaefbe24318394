-- ===== src/Consumer/Execute.antt =====
-- wakuwaku-iggy/src/consumer/execute.rs: executing the plan of one key. The list of handlers and
-- `join_all` are parameters; `W` is the state of the world that handlers change.
pub mod Stages
pub mod Segments
pub mod Report
pub mod Keeps
mod Examples
use wakuwaku.Base.{ℕ, suc, List, [], ◌∷◌, ◌++◌, Option, none, some, get_elem?, map}
use wakuwaku.Events.{EventTypeTag, non_associative}
use wakuwaku.Partition.Plan.{KeyPlan, Segment, Run, Plan}
use wakuwaku.Partition.Plan.View
use wakuwaku.Consumer.Record.{ParsedRecord}
use wakuwaku.Consumer.Handler.{RunRecord, RunResult, done, failed}

-- Position of a run inside its segment.
pub data Stage : Type 0 where
  head tail : Stage
  body : ℕ → Stage

pub record FailedRun : Type 0 where
  pub stage : Stage
  pub records : List ℕ
  pub remainder : List (List ℕ)

pub record KeyFailure (Err : Type 0) : Type 0 where
  pub segment : ℕ
  pub error : Err
  pub failed_runs : List FailedRun

pub record KeyReport (Err : Type 0) : Type 0 where
  pub completed : List ℕ
  pub failure : Option (KeyFailure Err)

pub record StageOutcome (Err : Type 0) : Type 0 where
  pub error : Option Err
  pub failed_runs : List FailedRun

-- `records[i]`, as the handler reads it.
abbrev run_record : Option ParsedRecord → RunRecord
run_record none = record { payload = []; associativity = non_associative }
run_record (some r) = record {
  payload = r.payload;
  associativity = r.headers.properties.associativity;
}

unfoldable pub run_records : Plan → List ParsedRecord → Run → List RunRecord
run_records plan parsed run =
    map (λ (i : ℕ). run_record (get_elem? parsed i)) (View.records plan run)

-- `if self.error.is_none() { self.error = Some(error) }`
abbrev first_error : {Err : Type 0} → Option Err → Err → Option Err
first_error none error = some error
first_error (some e) error = some e

module _ {Err : Type 0} (plan : Plan) where
  -- `StageOutcome::settle`, with the indices of the completed records.
  pub settle : Stage → Run → RunResult Err → StageOutcome Err × List ℕ → StageOutcome Err × List ℕ
  settle stage run done (outcome, completed) = (outcome, completed ++ View.records plan run)
  settle stage run (failed error remainder) (outcome, completed) = (
    record {
      error = first_error outcome.error error;
      failed_runs =
          outcome.failed_runs
          ++ record { stage = stage; records = View.records plan run; remainder = remainder } ∷ [];
    },
    completed,
  )

  -- The loop over the body's runs and their results, from index `i`.
  pub settle_body :
      ℕ → List Run → List (RunResult Err) → StageOutcome Err × List ℕ → StageOutcome Err × List ℕ
  unfolding settle
  settle_body i [] results p = p
  settle_body i (run ∷ runs) [] p = p
  settle_body i (run ∷ runs) (result ∷ results) p =
      settle_body (suc i) runs results (settle (Stage.body i) run result p)

-- The first if there is no error, the second if there is one.
abbrev pub if_none : {A Err : Type 0} → Option Err → A → A → A
if_none none a b = a
if_none (some error) a b = b

-- `if outcome.error.is_none()`
abbrev pub unless_failed :
    {W Err : Type 0}
    → (W → StageOutcome Err × List ℕ → W × (StageOutcome Err × List ℕ))
    → W × (StageOutcome Err × List ℕ)
    → W × (StageOutcome Err × List ℕ)
unless_failed next (w, p) = if_none p.0.error (next w p) (w, p)

module _ {W Err : Type 0} (handle_run : W → EventTypeTag → List RunRecord → W × RunResult Err)
    (join_all : List (W → W × RunResult Err) → W → W × List (RunResult Err)) (plan : Plan)
    (parsed : List ParsedRecord) where
  pub run_one : Run → W → W × RunResult Err
  unfolding run_records
  run_one run w = handle_run w run.tag (run_records plan parsed run)

  -- A head or a tail.
  pub run_stage :
      Stage → Option Run → W → StageOutcome Err × List ℕ → W × (StageOutcome Err × List ℕ)
  unfolding run_one settle
  run_stage stage none w p = (w, p)
  run_stage stage (some run) w p =
      let (w', result) = run_one run w in (w', settle plan stage run result p)

  pub run_body : List Run → W → StageOutcome Err × List ℕ → W × (StageOutcome Err × List ℕ)
  unfolding run_one settle_body
  run_body runs w p =
      let (w', results) = join_all (map run_one runs) w in (w', settle_body plan 0 runs results p)

  pub run_segment : Segment → W → List ℕ → W × (StageOutcome Err × List ℕ)
  unfolding run_stage run_body
  run_segment segment w completed =
      let outcome : StageOutcome Err = record { error = none; failed_runs = [] } in
      let after_head = run_stage Stage.head (View.head plan segment) w (outcome, completed) in
      let after_body = unless_failed (run_body (View.body plan segment)) after_head in
      unless_failed (run_stage Stage.tail (View.tail plan segment)) after_body

  pub execute_from : ℕ → List Segment → W → List ℕ → W × KeyReport Err
  unfolding run_segment
  execute_from index [] w completed = (w, record { completed = completed; failure = none })
  execute_from index (segment ∷ rest) w completed =
      let (w', (outcome, completed')) = run_segment segment w completed in
      elim outcome.error [
        | none ↦ execute_from (suc index) rest w' completed'
        | some error ↦ (
          w',
          record {
            completed = completed';
            failure =
                some (record { segment = index; error = error; failed_runs = outcome.failed_runs });
          },
        )
      ]

  unfoldable pub execute_key : KeyPlan → W → W × KeyReport Err
  unfolding execute_from
  execute_key key w = execute_from 0 (View.segments plan key) w []
