-- ===== src/Consumer/Runtime/Task/Rounds.antt =====
-- The rounds of a partition task store the offset of the main topic only after a batch (`PartitionTask::run` of
-- wakuwaku-iggy/src/consumer/runtime.rs).
use wakuwaku.Base.{
  ℕ, zero, suc, ◌≡◌, refl, sym, ap, subst, List, Option, none, some, saturating_add, if◌then◌else◌,
  inl,
}
use wakuwaku.Events.Headers.{HeaderKeys}
use wakuwaku.Consumer.Record.{Message}
use wakuwaku.Consumer.Retry.{RetryState}
use wakuwaku.Consumer.Runtime.{
  Handlers, Iggy, ConsumerConfig, DeliveryMode, no_double_consume, no_event_lose, Topic, main_topic,
  retry_topic,
}
use wakuwaku.Consumer.Runtime.Batch.{process_main}
use wakuwaku.Consumer.Runtime.Retries.{last_offset, run_due}
use wakuwaku.Consumer.Runtime.Task.{
  Outcome, returned, unfinished, bind, same_mode, unless_stopped, stored_cursor, store, store_in,
  poll, idle, consume, process_and_store, round, run_rounds, run, Task,
}
use wakuwaku.Consumer.Runtime.Task.Waits.{
  Always, bind-Always, bind_returned-Always, unless_stopped-Always, poll-Always, drain_retry-Always,
  commit_retry-Always, stored_cursor-Always, run_due-keeps, process_main-keeps,
}
use wakuwaku.Consumer.Runtime.Task.Stored.{
  Begun, at_start, after_round, Polled, polls, Processed, Safe, Quiet, Clock, Quiet-refl,
  Quiet-Safe, Quiet-Always, store-Safe,
}

module _ {W Err IggyError HeaderKey HeaderValue : Type 0} (handlers : Handlers W Err)
    (iggy : Iggy W IggyError HeaderKey HeaderValue) (config : ConsumerConfig)
    (keys : HeaderKeys HeaderKey) (latest fuel : ℕ) (stored : W → Option ℕ) (Later : W → W → Type 0)
    (clock : Clock handlers iggy config keys latest fuel stored Later)
    (mode_is : config.mode ≡ no_event_lose) where
  abbrev storing : DeliveryMode → ℕ → W → Outcome W (Unit {0})
  storing mode n w = store_in handlers iggy config keys latest fuel mode main_topic n w

  skipped : (n : ℕ) (w : W) → storing no_double_consume n w ≡ returned w tt
  unfolding store_in
  skipped n w =
      ap
        (λ (m : DeliveryMode).
          if same_mode m no_double_consume
          then store handlers iggy config keys latest fuel main_topic n w
          else returned w tt)
        mode_is

  taken :
      (n : ℕ) (w : W)
      → storing no_event_lose n w ≡ store handlers iggy config keys latest fuel main_topic n w
  unfolding store_in
  taken n w =
      ap
        (λ (m : DeliveryMode).
          if same_mode m no_event_lose
          then store handlers iggy config keys latest fuel main_topic n w
          else returned w tt)
        mode_is

  processed-Safe :
      (start : W) (first : Option ℕ) (state : RetryState)
      (polled : List (Message IggyError HeaderKey HeaderValue)) (last : ℕ) (w : W)
      → last_offset polled ≡ some last
      → Polled handlers iggy config keys latest fuel stored Later start state polled w
      → Safe handlers iggy config keys latest fuel stored Later start first w
      → (o : Option W) → process_main iggy config keys handlers fuel state polled w ≡ o
      → Always
          (Safe handlers iggy config keys latest fuel stored Later start first)
          (elim o as (λ _. Outcome W (Unit {0})) [
            | none ↦ unfinished
            | some w' ↦ storing no_event_lose last w'
          ])
  processed-Safe start first state polled last w e b s none f = tt
  processed-Safe start first state polled last w e b s (some w') f =
      let q =
        process_main-keeps handlers iggy config keys latest fuel
          (Quiet handlers iggy config keys latest fuel stored Later w) (clock.quiet w) state polled
          w (Quiet-refl handlers iggy config keys latest fuel stored Later clock w) w' f in
      let p : Processed handlers iggy config keys latest fuel stored Later start last w' = record {
        state = state;
        batch = polled;
        before = w;
        polled = b;
        last_is = e;
        after = w';
        processed = f;
        later = clock.later_refl w';
      } in
      subst (Always (Safe handlers iggy config keys latest fuel stored Later start first))
        (sym (taken last w'))
        (store-Safe handlers iggy config keys latest fuel stored Later clock start first last w' (
          Quiet-Safe handlers iggy config keys latest fuel stored Later clock start first w w' s q,
          p,
        ))

  consume-Safe :
      (start : W) (first : Option ℕ) (state : RetryState)
      (polled : List (Message IggyError HeaderKey HeaderValue)) (last : ℕ) (w : W)
      → last_offset polled ≡ some last
      → Polled handlers iggy config keys latest fuel stored Later start state polled w
      → Safe handlers iggy config keys latest fuel stored Later start first w
      → Always
          (Safe handlers iggy config keys latest fuel stored Later start first)
          (consume handlers iggy config keys latest fuel state polled last w)
  unfolding consume process_and_store bind
  consume-Safe start first state polled last w e b s =
      subst
        (λ (o : Outcome W (Unit {0})).
          Always (Safe handlers iggy config keys latest fuel stored Later start first) (
            bind o
              (λ w _. process_and_store handlers iggy config keys latest fuel state polled last w)))
        (sym (skipped last w))
        (processed-Safe start first state polled last w e b s
          (process_main iggy config keys handlers fuel state polled w) refl)

  after_poll-Safe :
      (start : W) (first : Option ℕ) (task next : Task) (w : W)
      (polled : List (Message IggyError HeaderKey HeaderValue))
      → Polled handlers iggy config keys latest fuel stored Later start next.state polled w
      → Safe handlers iggy config keys latest fuel stored Later start first w
      → (o : Option ℕ) → last_offset polled ≡ o
      → Always
          (Safe handlers iggy config keys latest fuel stored Later start first)
          (elim o as (λ _. Outcome W Task) [
            | none ↦
                bind
                  (unless_stopped handlers iggy config keys latest fuel
                    (λ w. some (
                      iggy.sleep
                          (idle handlers iggy config keys latest fuel next.state (iggy.now w))
                          w,
                      tt,
                    ))
                    w)
                  (λ w _. returned w next)
            | some last ↦
                bind
                  (consume handlers iggy config keys latest fuel next.state polled last w)
                  (λ w _.
                    returned w
                      (record next { main = record { next = some (saturating_add last 1) } }))
          ])
  after_poll-Safe start first task next w polled b s none e =
      bind-Always (Safe handlers iggy config keys latest fuel stored Later start first) _ _
        (Quiet-Always handlers iggy config keys latest fuel stored Later clock start first w _ s (
          unless_stopped-Always handlers iggy config keys latest fuel
            (Quiet handlers iggy config keys latest fuel stored Later w) (clock.quiet w) _ w
            (Quiet-refl handlers iggy config keys latest fuel stored Later clock w)
            ((clock.quiet w).sleep_keeps _ w
              (Quiet-refl handlers iggy config keys latest fuel stored Later clock w))))
        λ w _ s. s
  after_poll-Safe start first task next w polled b s (some last) e =
      bind-Always (Safe handlers iggy config keys latest fuel stored Later start first) _ _
        (consume-Safe start first next.state polled last w e b s) λ w _ s. s

  round-Safe :
      (start : W) (first : Option ℕ) (task : Task) (w : W)
      → Begun handlers iggy config keys latest fuel stored Later start w task
      → Safe handlers iggy config keys latest fuel stored Later start first w
      → Always
          (Safe handlers iggy config keys latest fuel stored Later start first)
          (round handlers iggy config keys latest fuel task w)
  unfolding round
  round-Safe start first task w g s =
      bind_returned-Always (Safe handlers iggy config keys latest fuel stored Later start first) _ _
        (Quiet-Always handlers iggy config keys latest fuel stored Later clock start first w _ s (
          drain_retry-Always handlers iggy config keys latest fuel
            (Quiet handlers iggy config keys latest fuel stored Later w) (clock.quiet w) fuel
            task.state task.retry w
            (Quiet-refl handlers iggy config keys latest fuel stored Later clock w)))
        λ w1 drained e1 s1.
          let due = run_due handlers latest iggy.now drained.0 w1 in
          let s2 =
            Quiet-Safe handlers iggy config keys latest fuel stored Later clock start first w1 due.0
              s1
              (run_due-keeps handlers iggy config keys latest fuel
                (Quiet handlers iggy config keys latest fuel stored Later w1) (clock.quiet w1)
                drained.0 w1
                (Quiet-refl handlers iggy config keys latest fuel stored Later clock w1)) in
          bind_returned-Always (Safe handlers iggy config keys latest fuel stored Later start first)
            _ _
            (Quiet-Always handlers iggy config keys latest fuel stored Later clock start first due.0
              _ s2
              (commit_retry-Always handlers iggy config keys latest fuel
                (Quiet handlers iggy config keys latest fuel stored Later due.0) (clock.quiet due.0)
                due.1 drained.1 task.retry_stored due.0
                (Quiet-refl handlers iggy config keys latest fuel stored Later clock due.0)))
            λ w3 kept e3 s3.
              bind_returned-Always
                (Safe handlers iggy config keys latest fuel stored Later start first) _ _
                (Quiet-Always handlers iggy config keys latest fuel stored Later clock start first
                  w3 _ s3
                  (unless_stopped-Always handlers iggy config keys latest fuel
                    (Quiet handlers iggy config keys latest fuel stored Later w3) (clock.quiet w3)
                    (poll handlers iggy config keys latest fuel main_topic task.main) w3
                    (Quiet-refl handlers iggy config keys latest fuel stored Later clock w3)
                    (poll-Always handlers iggy config keys latest fuel
                      (Quiet handlers iggy config keys latest fuel stored Later w3) (clock.quiet w3)
                      main_topic task.main w3
                      (Quiet-refl handlers iggy config keys latest fuel stored Later clock w3))))
                λ w4 polled e4 s4.
                  after_poll-Safe start first task
                    (record {
                      state = due.1;
                      main = task.main;
                      retry = drained.1;
                      retry_stored = kept;
                    })
                    w4 polled (polls task w w1 w3 w4 drained kept polled g e1 e3 e4) s4
                    (last_offset polled) refl

  rounds-Safe :
      (start : W) (first : Option ℕ) (rounds : ℕ) (task : Task) (w : W)
      → Begun handlers iggy config keys latest fuel stored Later start w task
      → Safe handlers iggy config keys latest fuel stored Later start first w
      → Always
          (Safe handlers iggy config keys latest fuel stored Later start first)
          (run_rounds handlers iggy config keys latest fuel rounds task w)
  unfolding run_rounds
  rounds-Safe start first zero task w g s = s
  rounds-Safe start first (suc rounds) task w g s =
      bind_returned-Always (Safe handlers iggy config keys latest fuel stored Later start first) _ _
        (round-Safe start first task w g s)
        λ w' task' e s'.
          rounds-Safe start first rounds task' w' (after_round w w' task task' g e) s'

  cursor-Safe :
      (start : W) (first : Option ℕ) (topic : Topic) (w : W)
      → Safe handlers iggy config keys latest fuel stored Later start first w
      → Always (Safe handlers iggy config keys latest fuel stored Later start first) (
          unless_stopped handlers iggy config keys latest fuel
            (stored_cursor handlers iggy config keys latest fuel topic)
            w)
  cursor-Safe start first topic w s =
      Quiet-Always handlers iggy config keys latest fuel stored Later clock start first w _ s (
        unless_stopped-Always handlers iggy config keys latest fuel
          (Quiet handlers iggy config keys latest fuel stored Later w) (clock.quiet w)
          (stored_cursor handlers iggy config keys latest fuel topic) w
          (Quiet-refl handlers iggy config keys latest fuel stored Later clock w)
          (stored_cursor-Always handlers iggy config keys latest fuel
            (Quiet handlers iggy config keys latest fuel stored Later w) (clock.quiet w) topic w
            (Quiet-refl handlers iggy config keys latest fuel stored Later clock w)))

  -- In the mode that loses no event, at the end of each round, and when a shutdown ends the task, the
  -- offset stored for the main topic is the one of the start, or the last offset of a batch that a
  -- round of this very run polled from the main topic, and that `process_main` had processed to the end before,
  -- from the world and with the schedule in which it was polled. `Later` is any order of the worlds
  -- that the calls and the handlers follow, as that of a log of the calls.
  pub run-Safe :
      (rounds : ℕ) (w : W)
      → Always
          (Safe handlers iggy config keys latest fuel stored Later w (stored w))
          (run handlers iggy config keys latest fuel rounds w)
  unfolding run
  run-Safe rounds w =
      bind_returned-Always (Safe handlers iggy config keys latest fuel stored Later w (stored w)) _
        _ (cursor-Safe w (stored w) main_topic w (inl refl))
        λ w1 main e1 s1.
          bind_returned-Always
            (Safe handlers iggy config keys latest fuel stored Later w (stored w)) _ _
            (cursor-Safe w (stored w) retry_topic w1 s1)
            λ w2 retry e2 s2.
              rounds-Safe w (stored w) rounds _ w2 (at_start w1 w2 main retry e1 e2) s2
