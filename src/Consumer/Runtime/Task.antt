-- ===== src/Consumer/Runtime/Task.antt =====
-- `PartitionTask::run` of wakuwaku-iggy/src/consumer/runtime.rs and what it waits for. A wait is cut off by
-- a shutdown; `unfinished` stands for a call of Iggy that is still repeated, or a retry partition that is
-- still being read, when the fuel is used up.
pub mod Waits
pub mod Stored
pub mod Rounds
use wakuwaku.Base.{
  ℕ, zero, suc, ◌-◌, min, ltb, List, Option, none, some, Bool, true, false, if◌then◌else◌,
  saturating_add,
}
use wakuwaku.Events.Headers.{HeaderKeys}
use wakuwaku.Consumer.Backoff.{until_ok, Duration}
use wakuwaku.Consumer.Record.{Message}
use wakuwaku.Consumer.Retry.{RetryState, committable, next_due}
use wakuwaku.Consumer.Retry
use wakuwaku.Consumer.Runtime.{
  Handlers, Iggy, ConsumerConfig, DeliveryMode, no_double_consume, no_event_lose, Topic, main_topic,
  retry_topic, Cursor, strategy, next_or_zero,
}
use wakuwaku.Consumer.Runtime.Batch.{process_main}
use wakuwaku.Consumer.Runtime.Retries.{run_due, enqueue_all, last_offset}

-- How a part of the task ends.
pub data Outcome (W A : Type 0) : Type 0 where
  returned : W → A → Outcome W A
  shut_down : W → Outcome W A
  unfinished : Outcome W A

unfoldable pub bind : {W A B : Type 0} → Outcome W A → (W → A → Outcome W B) → Outcome W B
bind (returned w a) next = next w a
bind (shut_down w) next = shut_down w
bind unfinished next = unfinished

abbrev pub finished : {W A : Type 0} → Option (W × A) → Outcome W A
finished none = unfinished
finished (some (w, a)) = returned w a

-- `self.config.mode == mode`
abbrev pub same_mode : DeliveryMode → DeliveryMode → Bool
same_mode no_double_consume no_double_consume = true
same_mode no_double_consume no_event_lose = false
same_mode no_event_lose no_double_consume = false
same_mode no_event_lose no_event_lose = true

-- The variables of `run`.
pub record Task : Type 0 where
  pub state : RetryState
  pub main : Cursor
  pub retry : Cursor
  pub retry_stored : Option ℕ

-- `retry_stored.is_none_or(|stored| offset > stored)`
abbrev pub is_newer : Option ℕ → ℕ → Bool
is_newer none offset = true
is_newer (some stored) offset = ltb stored offset

module _ {W Err IggyError HeaderKey HeaderValue : Type 0} (handlers : Handlers W Err)
    (iggy : Iggy W IggyError HeaderKey HeaderValue) (config : ConsumerConfig)
    (keys : HeaderKeys HeaderKey) (latest fuel : ℕ) where
  unfoldable pub unless_stopped : {A : Type 0} → (W → Option (W × A)) → W → Outcome W A
  unless_stopped future w = elim (iggy.stopped w) [
    | some w' ↦ shut_down w'
    | none ↦ finished (future w)
  ]

  unfoldable pub stored_cursor : Topic → W → Option (W × Cursor)
  stored_cursor topic w =
      elim (until_ok iggy.sleep config.retry_delays (iggy.get_consumer_offset topic) fuel 0 w) [
        | none ↦ none
        | some (w', none) ↦ some (w', record { next = none })
        | some (w', some stored) ↦ some (w', record { next = some (saturating_add stored 1) })
      ]

  unfoldable pub store : Topic → ℕ → W → Outcome W (Unit {0})
  store topic offset w =
      finished
        (until_ok iggy.sleep config.retry_delays (iggy.store_consumer_offset topic offset) fuel 0 w)

  -- `if self.config.mode == mode { self.store(..) }`
  unfoldable pub store_in : DeliveryMode → Topic → ℕ → W → Outcome W (Unit {0})
  unfolding store
  store_in mode topic offset w =
      if same_mode config.mode mode then store topic offset w else returned w tt

  unfoldable pub poll :
      Topic → Cursor → W → Option (W × List (Message IggyError HeaderKey HeaderValue))
  poll topic cursor w =
      until_ok iggy.sleep config.retry_delays (iggy.poll_messages topic (strategy cursor)) fuel 0 w

  -- The loop of `drain_retry`, at most `rounds` polls.
  unfoldable pub drain_retry : ℕ → RetryState → Cursor → W → Outcome W (RetryState × Cursor)
  unfolding unless_stopped poll store_in last_offset
  drain_retry zero state cursor w = unfinished
  drain_retry (suc rounds) state cursor w =
      bind (unless_stopped (poll retry_topic cursor) w) λ w messages. elim (last_offset messages) [
        | none ↦ returned w (state, cursor)
        | some last ↦ bind (store_in no_double_consume retry_topic last w) λ w' _.
            drain_retry rounds
              (enqueue_all iggy keys latest (iggy.now w) (iggy.now_ms w) messages state)
              (record { next = some (saturating_add last 1) }) w'
      ]

  -- The offset of the retry partition, stored if it grew.
  unfoldable pub store_retry : RetryState → Cursor → Option ℕ → W → Outcome W (Option ℕ)
  unfolding store
  store_retry state retry retry_stored w = elim (committable state (next_or_zero retry)) [
    | none ↦ returned w retry_stored
    | some offset ↦
        if is_newer retry_stored offset
        then bind (store retry_topic offset w) (λ w' _. returned w' (some offset))
        else returned w retry_stored
  ]

  unfoldable pub commit_retry : RetryState → Cursor → Option ℕ → W → Outcome W (Option ℕ)
  unfolding store_retry
  commit_retry state retry retry_stored w =
      if same_mode config.mode no_event_lose
      then store_retry state retry retry_stored w
      else returned w retry_stored

  -- How long to wait after an empty poll.
  unfoldable pub idle : RetryState → ℕ → Duration
  idle state now = elim (next_due state) [
    | none ↦ config.poll_interval
    | some due ↦ min (due - now) config.poll_interval
  ]

  -- `process_main`, and the offset of the main partition if it is stored after that.
  unfoldable pub process_and_store :
      RetryState → List (Message IggyError HeaderKey HeaderValue) → ℕ → W → Outcome W (Unit {0})
  unfolding store_in
  process_and_store state polled last w =
      elim (process_main iggy config keys handlers fuel state polled w) [
        | none ↦ unfinished
        | some w ↦ store_in no_event_lose main_topic last w
      ]

  -- A batch of the main partition that ends with offset `last`.
  unfoldable pub consume :
      RetryState → List (Message IggyError HeaderKey HeaderValue) → ℕ → W → Outcome W (Unit {0})
  unfolding store_in process_and_store
  consume state polled last w =
      bind (store_in no_double_consume main_topic last w)
        (λ w _. process_and_store state polled last w)

  -- One round of the loop of `run`.
  unfoldable pub round : Task → W → Outcome W Task
  unfolding drain_retry commit_retry idle consume
  round task w = bind (drain_retry fuel task.state task.retry w) λ w drained.
      let (w, state) = run_due handlers latest iggy.now drained.0 w in
      bind (commit_retry state drained.1 task.retry_stored w) λ w stored.
        let next : Task = record {
          state = state;
          main = task.main;
          retry = drained.1;
          retry_stored = stored;
        } in
        bind (unless_stopped (poll main_topic task.main) w) λ w polled. elim (last_offset polled) [
          | none ↦
              bind (unless_stopped (λ w. some (iggy.sleep (idle state (iggy.now w)) w, tt)) w)
                (λ w _. returned w next)
          | some last ↦ bind (consume state polled last w) (λ w _.
              returned w (record next { main = record { next = some (saturating_add last 1) } }))
        ]

  -- The loop of `run`, for a number of rounds.
  unfoldable pub run_rounds : ℕ → Task → W → Outcome W Task
  unfolding round
  run_rounds zero task w = returned w task
  run_rounds (suc rounds) task w = bind (round task w) (λ w task. run_rounds rounds task w)

  unfoldable pub run : ℕ → W → Outcome W Task
  unfolding unless_stopped stored_cursor run_rounds
  run rounds w = bind (unless_stopped (stored_cursor main_topic) w) λ w main.
      bind (unless_stopped (stored_cursor retry_topic) w) λ w retry.
        run_rounds rounds
          (record {
            state = Retry.new config.retry_delays;
            main = main;
            retry = retry;
            retry_stored = none;
          })
          w
