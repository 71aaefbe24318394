-- ===== src/Consumer/Runtime/Task/Stored.antt =====
-- When the offset of the main topic is stored (`PartitionTask::run` of
-- wakuwaku-iggy/src/consumer/runtime.rs).
use wakuwaku.Base.{ℕ, ◌≡◌, refl, ◌∙◌, List, Option, none, some, inl, inr, ◌⊎◌}
use wakuwaku.Events.Headers.{HeaderKeys}
use wakuwaku.Consumer.Record.{Message}
use wakuwaku.Consumer.Retry.{RetryState}
use wakuwaku.Consumer.Retry.{new}
use wakuwaku.Consumer.Runtime.{Handlers, Iggy, ConsumerConfig, Cursor, main_topic, retry_topic}
use wakuwaku.Consumer.Runtime.Batch.{process_main}
use wakuwaku.Consumer.Runtime.Retries.{last_offset, run_due}
use wakuwaku.Consumer.Runtime.Task.{
  Outcome, returned, shut_down, unfinished, store, unless_stopped, stored_cursor, poll, drain_retry,
  commit_retry, round, Task,
}
use wakuwaku.Consumer.Runtime.Task.Waits.{Always, until_ok-Always, Keeps}

module _ {W Err IggyError HeaderKey HeaderValue : Type 0} (handlers : Handlers W Err)
    (iggy : Iggy W IggyError HeaderKey HeaderValue) (config : ConsumerConfig)
    (keys : HeaderKeys HeaderKey) (latest fuel : ℕ) (stored : W → Option ℕ)
    (Later : W → W → Type 0) where
  module _ (start : W) where
    -- The rounds of the run that begins in `start`: the worlds in which they begin, with the task's variables.
    pub data Begun : W → Task → Type 0 where
      at_start :
          (w1 w2 : W) (main retry : Cursor)
          → unless_stopped handlers iggy config keys latest fuel
              (stored_cursor handlers iggy config keys latest fuel main_topic)
              start
            ≡ returned w1 main
          → unless_stopped handlers iggy config keys latest fuel
              (stored_cursor handlers iggy config keys latest fuel retry_topic)
              w1
            ≡ returned w2 retry
          → Begun w2 (record {
            state = new config.retry_delays;
            main = main;
            retry = retry;
            retry_stored = none;
          })
      after_round :
          (w w' : W) (task task' : Task)
          → Begun w task
          → round handlers iggy config keys latest fuel task w ≡ returned w' task'
          → Begun w' task'

    -- The batches that the rounds of the run poll from the main topic, each with the schedule and the world then.
    pub data Polled : RetryState → List (Message IggyError HeaderKey HeaderValue) → W → Type 0 where
      polls :
          (task : Task) (w w1 w2 w3 : W) (drained : RetryState × Cursor) (kept : Option ℕ)
          (polled : List (Message IggyError HeaderKey HeaderValue))
          → Begun w task
          → drain_retry handlers iggy config keys latest fuel fuel task.state task.retry w
            ≡ returned w1 drained
          → commit_retry handlers iggy config keys latest fuel
              (run_due handlers latest iggy.now drained.0 w1).1
              drained.1
              task.retry_stored
              (run_due handlers latest iggy.now drained.0 w1).0
            ≡ returned w2 kept
          → unless_stopped handlers iggy config keys latest fuel
              (poll handlers iggy config keys latest fuel main_topic task.main)
              w2
            ≡ returned w3 polled
          → Polled (run_due handlers latest iggy.now drained.0 w1).1 polled w3

    -- A batch that the run polled, and whose last offset is `n`, was processed to the end before the world `w`.
    pub record Processed (n : ℕ) (w : W) : Type 0 where
      pub state : RetryState
      pub batch : List (Message IggyError HeaderKey HeaderValue)
      pub before : W
      pub polled : Polled state batch before
      pub last_is : last_offset batch ≡ some n
      pub after : W
      pub processed : process_main iggy config keys handlers fuel state batch before ≡ some after
      pub later : Later after w

    -- The offset that is stored is that of the start, or that of a batch that was processed.
    abbrev pub Safe : Option ℕ → W → Type 0
    Safe first w = (stored w ≡ first) ⊎ ((n : ℕ) × (stored w ≡ some n) × Processed n w)

  -- What the calls and the handlers do to the stored offset, and that time passes.
  pub record Quiet (w w' : W) : Type 0 where
    pub unstored : stored w' ≡ stored w
    pub passed : Later w w'

  pub record Clock : Type 1 where
    pub later_refl : (w : W) → Later w w
    pub later_trans : (a b c : W) → Later a b → Later b c → Later a c
    -- Nothing but storing an offset of the main topic changes the stored one: each call keeps that it is
    -- what it was, in a later world.
    pub quiet : (w : W) → Keeps handlers iggy (Quiet w)
    pub store_later : (n : ℕ) (w : W) → Later w (iggy.store_consumer_offset main_topic n w).0
    -- Storing an offset stores that offset, or fails and stores none.
    pub store_main :
        (n : ℕ) (w : W)
        → let w' = (iggy.store_consumer_offset main_topic n w).0 in
          (stored w' ≡ stored w) ⊎ (stored w' ≡ some n)

  module _ (clock : Clock) where
    pub Quiet-refl : (w : W) → Quiet w w
    Quiet-refl w = record { unstored = refl; passed = clock.later_refl w }

  module _ (clock : Clock) (start : W) where
    pub Processed-later : (n : ℕ) (a b : W) → Processed start n a → Later a b → Processed start n b
    Processed-later n a b p l = record {
      state = p.state;
      batch = p.batch;
      polled = p.polled;
      last_is = p.last_is;
      before = p.before;
      after = p.after;
      processed = p.processed;
      later = clock.later_trans p.after a b p.later l;
    }

    pub Quiet-Safe :
        (first : Option ℕ) (a b : W) → Safe start first a → Quiet a b → Safe start first b
    Quiet-Safe first a b (inl e) q = inl (q.unstored ∙ e)
    Quiet-Safe first a b (inr (n, e, p)) q =
        inr (n, q.unstored ∙ e, Processed-later n a b p q.passed)

    -- A part of the task that is quiet is safe.
    pub Quiet-Always :
        {A : Type 0} (first : Option ℕ) (w : W) (o : Outcome W A)
        → Safe start first w
        → Always (Quiet w) o
        → Always (Safe start first) o
    Quiet-Always first w (returned v a) s q = Quiet-Safe first w v s q
    Quiet-Always first w (shut_down v) s q = Quiet-Safe first w v s q
    Quiet-Always first w unfinished s q = tt

    -- The offset may be stored now.
    abbrev pub Storable : Option ℕ → ℕ → W → Type 0
    Storable first n w = Safe start first w × Processed start n w

    store-Storable :
        (first : Option ℕ) (n : ℕ) (w : W)
        → Storable first n w
        → Storable first n (iggy.store_consumer_offset main_topic n w).0
    store-Storable first n w (s, p) =
        let w' = (iggy.store_consumer_offset main_topic n w).0 in
        let p' : Processed start n w' = Processed-later n w w' p (clock.store_later n w) in
        elim (clock.store_main n w) [
          | inl e ↦ (
            Quiet-Safe first w w' s (record { unstored = e; passed = clock.store_later n w }),
            p',
          )
          | inr e ↦ (inr (n, e, p'), p')
        ]

    sleep-Storable :
        (first : Option ℕ) (n d : ℕ) (w : W)
        → Storable first n w
        → Storable first n (iggy.sleep d w)
    sleep-Storable first n d w (s, p) =
        let q = (clock.quiet w).sleep_keeps d w (Quiet-refl clock w) in
        (Quiet-Safe first w _ s q, Processed-later n w _ p q.passed)

    Storable-Safe :
        {A : Type 0} (first : Option ℕ) (n : ℕ) (o : Outcome W A)
        → Always (Storable first n) o
        → Always (Safe start first) o
    Storable-Safe first n (returned v a) s = s.0
    Storable-Safe first n (shut_down v) s = s.0
    Storable-Safe first n unfinished s = tt

    pub store-Safe :
        (first : Option ℕ) (n : ℕ) (w : W)
        → Storable first n w
        → Always (Safe start first) (store handlers iggy config keys latest fuel main_topic n w)
    unfolding store
    store-Safe first n w s = Storable-Safe first n _ (
        until_ok-Always iggy.sleep config.retry_delays (iggy.store_consumer_offset main_topic n)
          (Storable first n) (sleep-Storable first n) (store-Storable first n) fuel 0 w s)
