-- ===== src/Consumer/Runtime.antt =====
-- wakuwaku-iggy/src/consumer/runtime.rs and config.rs: the task that consumes one partition. The Iggy
-- client, the clock, the shutdown signal, the handlers and `join_all` are parameters; `W` is the state of
-- the world that they change. Log lines are left out.
pub mod Batch
pub mod Retries
pub mod Task
pub mod Start
mod Examples
use wakuwaku.Base.{ℕ, List, Option, none, some, Result, Bool}
use wakuwaku.Events.{EventTypeTag, EventAssociativity}
use wakuwaku.Events.Headers.{HeaderKeys}
use wakuwaku.Consumer.Backoff.{Duration, until_ok}
use wakuwaku.Consumer.Record.{Message}
use wakuwaku.Consumer.Handler.{RunRecord, RunResult}

pub data DeliveryMode : Type 0 where
  no_double_consume no_event_lose : DeliveryMode

-- The fields of `ConsumerConfig` that a partition task reads.
pub record ConsumerConfig : Type 0 where
  pub mode : DeliveryMode
  pub retry_delays : List Duration
  pub poll_interval : Duration
  pub max_pending_retry : ℕ

-- The list of handlers, and how futures are awaited together.
pub record Handlers (W Err : Type 0) : Type 1 where
  pub handle_run : W → EventTypeTag → List RunRecord → W × RunResult Err
  pub associativity : EventTypeTag → Option EventAssociativity
  pub reduce_run : EventTypeTag → List RunRecord → List (List ℕ)
  pub join_all : {B : Type 0} → List (W → W × B) → W → W × List B

-- The two topics of a task.
pub data Topic : Type 0 where
  main_topic retry_topic : Topic

-- `PollingStrategy`
pub data PollingStrategy : Type 0 where
  first : PollingStrategy
  offset : ℕ → PollingStrategy

-- Calls of Iggy on the task's partition, the headers of its messages, the clock and the shutdown signal.
pub record Iggy (W IggyError HeaderKey HeaderValue : Type 0) : Type 0 where
  pub get_consumer_offset : Topic → W → W × Result IggyError (Option ℕ)
  pub store_consumer_offset : Topic → ℕ → W → W × Result IggyError (Unit {0})
  pub poll_messages :
      Topic
      → PollingStrategy
      → W
      → W × Result IggyError (List (Message IggyError HeaderKey HeaderValue))
  pub send_messages :
      List (Message IggyError HeaderKey HeaderValue) → W → W × Result IggyError (Unit {0})
  -- `IggyMessage::builder().payload(..).user_headers(..).build()`
  pub build :
      List ℕ
      → (HeaderKey → Option HeaderValue)
      → Result IggyError (Message IggyError HeaderKey HeaderValue)
  pub key_eq : Discrete HeaderKey
  pub as_bytes : HeaderValue → List ℕ
  pub try_from : List ℕ → Result IggyError HeaderValue
  pub sleep : Duration → W → W
  pub now : W → ℕ
  pub now_ms : W → ℕ
  -- The world at the time of a shutdown that is requested before a wait that starts now is over.
  pub stopped : W → Option W

-- The read position in one partition.
pub record Cursor : Type 0 where
  pub next : Option ℕ

-- `Cursor::strategy`
unfoldable pub strategy : Cursor → PollingStrategy
strategy cursor = elim cursor.next [ none ↦ first | some n ↦ offset n ]

-- `Cursor::next_or_zero`
unfoldable pub next_or_zero : Cursor → ℕ
next_or_zero cursor = elim cursor.next [ none ↦ 0 | some n ↦ n ]
