-- ===== src/Consumer/Runtime/Task/Waits.antt =====
-- What the parts of a partition task keep of the world (wakuwaku-iggy/src/consumer/runtime.rs and
-- utils/backoff.rs).
use wakuwaku.Base.{
  ℕ, zero, suc, ◌≡◌, refl, subst, List, [], ◌∷◌, Option, none, some, Bool, true, false, map, Result,
  saturating_add, if◌then◌else◌, Option-cases, Result-cases, some_inj, inl, inr,
}
use wakuwaku.Events.{EventTypeTag}
use wakuwaku.Events.Headers.{HeaderKeys}
use wakuwaku.Partition.Plan.{KeyPlan, Plan}
use wakuwaku.Partition.Plan.Build.{new}
use wakuwaku.Consumer.Backoff.{Duration, delay_for, until_ok}
use wakuwaku.Consumer.Record.{ParsedRecord, Message, plan_records}
use wakuwaku.Consumer.Retry.{RetryState, is_empty, due_keys, committable}
use wakuwaku.Consumer.Handler.{RunRecord}
use wakuwaku.Consumer.Execute.Keeps.{AllKeep, execute_key-keeps}
use wakuwaku.Consumer.Encode.{RetryEntry}
use wakuwaku.Consumer.Runtime.{
  Handlers, Iggy, ConsumerConfig, DeliveryMode, no_double_consume, no_event_lose, Topic,
  retry_topic, PollingStrategy, Cursor, strategy, next_or_zero,
}
use wakuwaku.Consumer.Runtime.Batch.{
  execute, run_keys, parse_all, build_all, send_retry, process_main,
}
use wakuwaku.Consumer.Runtime.Retries.{attempt, attempt_first, run_due, last_offset}
use wakuwaku.Consumer.Runtime.Task.{
  Outcome, returned, shut_down, unfinished, bind, finished, same_mode, unless_stopped,
  stored_cursor, store, store_in, poll, drain_retry, store_retry, commit_retry, is_newer,
}

-- `P` holds of the world in which a part of the task ends, if it ends.
abbrev pub Always : {W A : Type 0} → (W → Type 0) → Outcome W A → Type 0
Always P (returned w a) = P w
Always P (shut_down w) = P w
Always P unfinished = Unit {0}

pub bind-Always :
    {W A B : Type 0} (P : W → Type 0) (o : Outcome W A) (next : W → A → Outcome W B)
    → Always P o
    → ((w : W) (a : A) → P w → Always P (next w a))
    → Always P (bind o next)
unfolding bind
bind-Always P (returned w a) next p k = k w a p
bind-Always P (shut_down w) next p k = p
bind-Always P unfinished next p k = tt

-- The same, with what the part returned.
pub bind_returned-Always :
    {W A B : Type 0} (P : W → Type 0) (o : Outcome W A) (next : W → A → Outcome W B)
    → Always P o
    → ((w : W) (a : A) → o ≡ returned w a → P w → Always P (next w a))
    → Always P (bind o next)
unfolding bind
bind_returned-Always P (returned w a) next p k = k w a refl p
bind_returned-Always P (shut_down w) next p k = p
bind_returned-Always P unfinished next p k = tt

-- What one attempt of a call of Iggy keeps, its repetition keeps.
pub until_ok-Always :
    {W E A : Type 0} (sleep : Duration → W → W) (delays : List Duration) (op : W → W × Result E A)
    (P : W → Type 0)
    → ((d : Duration) (w : W) → P w → P (sleep d w))
    → ((w : W) → P w → P (op w).0)
    → (fuel n : ℕ) (w : W) → P w
    → Always P (finished (until_ok sleep delays op fuel n w))
unfolding until_ok
until_ok-Always sleep delays op P s k zero n w p = tt
until_ok-Always sleep delays op P s k (suc fuel) n w p = elim (Result-cases (op w).1) [
  | inl (a, e) ↦ rw (until_ok, e) (k w p)
  | inr (x, e) ↦
      rw (until_ok, e)
        (until_ok-Always sleep delays op P s k fuel (saturating_add n 1)
          (sleep (delay_for delays n) (op w).0) (s _ _ (k w p)))
]

-- The calls and the handlers keep `P`, but for storing an offset of the main topic.
pub record Keeps {W Err IggyError HeaderKey HeaderValue : Type 0} (handlers : Handlers W Err)
    (iggy : Iggy W IggyError HeaderKey HeaderValue) (P : W → Type 0) : Type 1 where
  pub get_keeps : (t : Topic) (w : W) → P w → P (iggy.get_consumer_offset t w).0
  pub store_keeps : (n : ℕ) (w : W) → P w → P (iggy.store_consumer_offset retry_topic n w).0
  pub poll_keeps : (t : Topic) (s : PollingStrategy) (w : W) → P w → P (iggy.poll_messages t s w).0
  pub send_keeps :
      (ms : List (Message IggyError HeaderKey HeaderValue)) (w : W)
      → P w
      → P (iggy.send_messages ms w).0
  pub sleep_keeps : (d : Duration) (w : W) → P w → P (iggy.sleep d w)
  pub stopped_keeps : (w w' : W) → P w → iggy.stopped w ≡ some w' → P w'
  pub handle_keeps :
      (w : W) (tag : EventTypeTag) (run : List RunRecord)
      → P w
      → P (handlers.handle_run w tag run).0
  pub join_keeps :
      (B : Type 0) (futures : List (W → W × B))
      → AllKeep P futures
      → (w : W) → P w
      → P (handlers.join_all futures w).0

module _ {W Err IggyError HeaderKey HeaderValue : Type 0} (handlers : Handlers W Err)
    (iggy : Iggy W IggyError HeaderKey HeaderValue) (config : ConsumerConfig)
    (keys : HeaderKeys HeaderKey) (latest fuel : ℕ) (P : W → Type 0)
    (keep : Keeps handlers iggy P) where
  pub unless_stopped-Always :
      {A : Type 0} (future : W → Option (W × A)) (w : W)
      → P w
      → Always P (finished (future w))
      → Always P (unless_stopped handlers iggy config keys latest fuel future w)
  unfolding unless_stopped
  unless_stopped-Always future w p f = elim (Option-cases (iggy.stopped w)) [
    | inl e ↦ rw (unless_stopped, e) f
    | inr (w', e) ↦ rw (unless_stopped, e) (keep.stopped_keeps w w' p e)
  ]

  pub poll-Always :
      (topic : Topic) (cursor : Cursor) (w : W)
      → P w
      → Always P (finished (poll handlers iggy config keys latest fuel topic cursor w))
  unfolding poll
  poll-Always topic cursor w p =
      until_ok-Always iggy.sleep config.retry_delays (iggy.poll_messages topic (strategy cursor)) P
        keep.sleep_keeps (keep.poll_keeps topic (strategy cursor)) fuel 0 w p

  pub stored_cursor-Always :
      (topic : Topic) (w : W)
      → P w
      → Always P (finished (stored_cursor handlers iggy config keys latest fuel topic w))
  unfolding stored_cursor
  stored_cursor-Always topic w p =
      read (until_ok iggy.sleep config.retry_delays (iggy.get_consumer_offset topic) fuel 0 w) (
        until_ok-Always iggy.sleep config.retry_delays (iggy.get_consumer_offset topic) P
          keep.sleep_keeps (keep.get_keeps topic) fuel 0 w p)
    where
      read :
          (o : Option (W × Option ℕ))
          → Always P (finished o)
          → Always P (
              finished (elim o as (λ _. Option (W × Cursor)) [
                | none ↦ none
                | some (w', none) ↦ some (w', record { next = none })
                | some (w', some stored) ↦
                    some (w', record { next = some (saturating_add stored 1) })
              ]))
      read none a = tt
      read (some (v, none)) a = a
      read (some (v, some n)) a = a

  store_retry_topic-Always :
      (n : ℕ) (w : W) → P w → Always P (store handlers iggy config keys latest fuel retry_topic n w)
  unfolding store
  store_retry_topic-Always n w p =
      until_ok-Always iggy.sleep config.retry_delays (iggy.store_consumer_offset retry_topic n) P
        keep.sleep_keeps (keep.store_keeps n) fuel 0 w p

  store_in-Always :
      (mode : DeliveryMode) (n : ℕ) (w : W)
      → P w
      → Always P (store_in handlers iggy config keys latest fuel mode retry_topic n w)
  unfolding store_in
  store_in-Always mode n w p = either (same_mode config.mode mode)
    where
      either :
          (b : Bool)
          → Always P (
              if b
              then store handlers iggy config keys latest fuel retry_topic n w
              else returned w tt)
      either true = store_retry_topic-Always n w p
      either false = p

  pub drain_retry-Always :
      (rounds : ℕ) (state : RetryState) (cursor : Cursor) (w : W)
      → P w
      → Always P (drain_retry handlers iggy config keys latest fuel rounds state cursor w)
  unfolding drain_retry
  drain_retry-Always zero state cursor w p = tt
  drain_retry-Always (suc rounds) state cursor w p =
      bind-Always P _ _
        (unless_stopped-Always (poll handlers iggy config keys latest fuel retry_topic cursor) w p
          (poll-Always retry_topic cursor w p))
        λ w messages p. elim (Option-cases (last_offset messages)) [
          | inl e ↦ rw e p
          | inr (last, e) ↦ rw e (
              bind-Always P _ _ (store_in-Always no_double_consume last w p)
                λ w' _ p. drain_retry-Always rounds _ _ w' p)
        ]

  pub commit_retry-Always :
      (state : RetryState) (retry : Cursor) (stored : Option ℕ) (w : W)
      → P w
      → Always P (commit_retry handlers iggy config keys latest fuel state retry stored w)
  unfolding commit_retry store_retry
  commit_retry-Always state retry stored w p = either (same_mode config.mode no_event_lose)
    where
      stored_or :
          (offset : ℕ) (b : Bool)
          → Always P (
              if b
              then bind
                  (store handlers iggy config keys latest fuel retry_topic offset w)
                  (λ w' _. returned w' (some offset))
              else returned w stored)
      stored_or offset true = bind-Always P _ _ (store_retry_topic-Always offset w p) λ w' _ p. p
      stored_or offset false = p

      either :
          (b : Bool)
          → Always P (
              if b
              then store_retry handlers iggy config keys latest fuel state retry stored w
              else returned w stored)
      either true = elim (Option-cases (committable state (next_or_zero retry))) [
        | inl e ↦ rw (store_retry, e) p
        | inr (offset, e) ↦ rw (store_retry, e) (stored_or offset (is_newer stored offset))
      ]
      either false = p

  attempts-AllKeep :
      (works : List (ℕ × List ParsedRecord))
      → AllKeep P (map (λ (work : ℕ × List ParsedRecord). attempt handlers work.1) works)
  unfolding attempt attempt_first
  attempts-AllKeep [] = tt
  attempts-AllKeep ((k, records) ∷ works) =
      (λ w p. go (new (plan_records records)).keys w p, attempts-AllKeep works)
    where
      go :
          (ks : List KeyPlan) (w : W)
          → P w
          → P (attempt_first handlers (new (plan_records records)) records ks w).0
      go [] w p = p
      go (key ∷ ks) w p =
          execute_key-keeps handlers.handle_run handlers.join_all P keep.handle_keeps
            (keep.join_keeps _) (new (plan_records records)) records key w p

  pub run_due-keeps :
      (state : RetryState) (w : W) → P w → P (run_due handlers latest iggy.now state w).0
  unfolding run_due
  run_due-keeps state w p =
      either (due_keys state (iggy.now w)) _ (keep.join_keeps _ _ (attempts-AllKeep _) w p)
    where
      either :
          (due : List ℕ) (s : W × RetryState)
          → P s.0
          → P (elim due as (λ _. W × RetryState) [ [] ↦ (w, state) | key ∷ keys ↦ s ]).0
      either [] s q = p
      either (key ∷ keys) s q = q

  run_keys-keeps :
      (state : RetryState) (plan : Plan) (records : List ParsedRecord) (ks : List KeyPlan) (w : W)
      → P w
      → P (run_keys handlers config state plan records ks w).0
  unfolding run_keys execute
  run_keys-keeps state plan records ks w p = keep.join_keeps _ _ (all _) w p
    where
      all : (ks : List KeyPlan) → AllKeep P (map (execute handlers config state plan records) ks)
      all [] = tt
      all (key ∷ ks) = (
        execute_key-keeps handlers.handle_run handlers.join_all P keep.handle_keeps
            (keep.join_keeps _) plan records key,
        all ks,
      )

  send_retry-Always :
      (entries : List RetryEntry) (w : W)
      → P w
      → (w' : W) → send_retry iggy config keys fuel entries w ≡ some w'
      → P w'
  unfolding send_retry
  send_retry-Always entries w p w' e =
      let messages = build_all iggy config keys (record { failed_at_ms = iggy.now_ms w }) entries in
      sent (is_empty messages)
        (until_ok iggy.sleep config.retry_delays (iggy.send_messages messages) fuel 0 w)
        (until_ok-Always iggy.sleep config.retry_delays (iggy.send_messages messages) P
          keep.sleep_keeps (keep.send_keeps messages) fuel 0 w p)
        e
    where
      sent :
          (b : Bool) (o : Option (W × Unit {0}))
          → Always P (finished o)
          → (if b
              then some w
              else (elim o as (λ _. Option W) [ none ↦ none | some (v, _) ↦ some v ]))
            ≡ some w'
          → P w'
      sent true o a e = subst P (some_inj e) p
      sent false none a e = absurd (cc)
      sent false (some (v, _)) a e = subst P (some_inj e) a

  -- Processing a batch keeps what the calls and the handlers keep.
  pub process_main-keeps :
      (state : RetryState) (polled : List (Message IggyError HeaderKey HeaderValue)) (w : W)
      → P w
      → (w' : W) → process_main iggy config keys handlers fuel state polled w ≡ some w'
      → P w'
  unfolding process_main
  process_main-keeps state polled w p w' e =
      let records = parse_all iggy config keys polled in
      let plan = new (plan_records records) in
      send_retry-Always _ _ (run_keys-keeps state plan records plan.keys w p) w' e
