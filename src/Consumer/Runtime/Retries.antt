-- ===== src/Consumer/Runtime/Retries.antt =====
-- `drain_retry`, `run_due` and `attempt` of wakuwaku-iggy/src/consumer/runtime.rs: reading the retry
-- partition, and running the keys that are due.
pub mod Attempted
use wakuwaku.Base.{
  ℕ, suc, zero, List, [], ◌∷◌, ◌++◌, Option, none, some, map, get_elem?, Result, ok, err,
  saturating_add,
}
use wakuwaku.Events.Headers.{HeaderKeys, RetryProperties}
use wakuwaku.Partition.Plan.{KeyPlan, Plan}
use wakuwaku.Partition.Plan.Build.{new}
use wakuwaku.Consumer.Backoff.{until_ok}
use wakuwaku.Consumer.Record.{ParsedRecord, Message, parse, plan_records}
use wakuwaku.Consumer.Retry.{RetryState, due_keys, enqueue, finish}
use wakuwaku.Consumer.Retry
use wakuwaku.Consumer.Execute.{FailedRun, KeyFailure, KeyReport, execute_key}
use wakuwaku.Consumer.Runtime.{
  Handlers, Iggy, ConsumerConfig, DeliveryMode, no_double_consume, no_event_lose, Topic,
  retry_topic, Cursor, strategy,
}

-- `&records[i].offset`
abbrev pub offset_of : List ParsedRecord → ℕ → ℕ
offset_of records i = elim (get_elem? records i) [ none ↦ 0 | some r ↦ r.offset ]

-- `failed_runs.iter().flat_map(|run| &run.records)`
unfoldable pub failed_records : List FailedRun → List ℕ
failed_records [] = []
failed_records (run ∷ runs) = run.records ++ failed_records runs

-- The offsets of a failure.
unfoldable pub failed_offsets :
    {Err : Type 0} → List ParsedRecord → Option (KeyFailure Err) → List ℕ
unfolding failed_records
failed_offsets records none = []
failed_offsets records (some failure) = map (offset_of records) (failed_records failure.failed_runs)

-- `self.retry_delays`, `latest` and the instant at which the attempts ended.
module _ {Err : Type 0} (latest now : ℕ) where
  -- The loop over the work and its reports.
  unfoldable pub finish_all :
      List (ℕ × List ParsedRecord) → List (KeyReport Err) → RetryState → RetryState
  unfolding failed_offsets
  finish_all [] reports state = state
  finish_all (work ∷ works) [] state = state
  finish_all ((key, records) ∷ works) (report ∷ reports) state =
      let resolved = map (offset_of records) report.completed in
      let (state', _) =
        finish latest state key resolved (failed_offsets records report.failure) now in
      finish_all works reports state'

module _ {W Err : Type 0} (handlers : Handlers W Err) where
  -- `plan.keys().first()`
  unfoldable pub attempt_first : Plan → List ParsedRecord → List KeyPlan → W → W × KeyReport Err
  attempt_first plan records [] w = (w, record { completed = []; failure = none })
  attempt_first plan records (key ∷ keys) w =
      execute_key handlers.handle_run handlers.join_all plan records key w

  unfoldable pub attempt : List ParsedRecord → W → W × KeyReport Err
  unfolding attempt_first
  attempt records w =
      let plan = new (plan_records records) in attempt_first plan records plan.keys w

  -- `run_due`; `now` reads the clock.
  unfoldable pub run_due : ℕ → (W → ℕ) → RetryState → W → W × RetryState
  unfolding attempt finish_all
  run_due latest now state w =
      let due = due_keys state (now w) in
      let work = map (λ (key : ℕ). (key, Retry.records state key)) due in
      let (w', reports) =
        handlers.join_all (map (λ (work : ℕ × List ParsedRecord). attempt work.1) work) w in
      elim due [
        | [] ↦ (w, state)
        | key ∷ keys ↦ (w', finish_all latest (now w') work reports state)
      ]

-- The offset of the last message.
unfoldable pub last_offset : {E K V : Type 0} → List (Message E K V) → Option ℕ
last_offset [] = none
last_offset (m ∷ []) = some m.offset
last_offset (m ∷ n ∷ messages) = last_offset (n ∷ messages)

module _ {W IggyError HeaderKey HeaderValue : Type 0}
    (iggy : Iggy W IggyError HeaderKey HeaderValue) (keys : HeaderKeys HeaderKey) (latest : ℕ) where
  -- The loop over the messages of one poll.
  unfoldable pub enqueue_all :
      ℕ → ℕ → List (Message IggyError HeaderKey HeaderValue) → RetryState → RetryState
  enqueue_all now now_ms [] state = state
  enqueue_all now now_ms (m ∷ messages) state =
      enqueue_all now now_ms messages (elim (parse iggy.as_bytes m keys) [
        | ok (record_, some retry) ↦
            enqueue latest state (record { record_ = record_; failed_at_ms = retry.failed_at_ms })
              now now_ms
        | ok (record_, none) ↦ state
        | err _ ↦ state
      ])
