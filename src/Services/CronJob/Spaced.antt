-- ===== src/Services/CronJob/Spaced.antt =====
-- The starts of a job's runs (wakuwaku/src/services/cron_job.rs), for each of the three intervals.
use wakuwaku.Base.{ℕ, zero, suc, ◌≤◌, ◌<◌, max, ◌≡◌, refl, Bool, true, false, arith}
use wakuwaku.Services.CronJob.{
  duration, CronTick, CronJobInterval, after_finish, at_least, after_start, Outcome, completed,
  failed, panicked, Runtime, Ran, wrapping_succ, later, next_tick, logged, execute, serial_turn,
  unless_stopped, ran_then, serial_loop, run_serially, spawn_turn, overlapping_loop,
  run_overlapping, run_job,
}
use wakuwaku.Services.CronJob.Starts.{next_start, OnGrid, Follows, next_start-NextStart}

-- Clocks don't go back, a clock that is read gives a time of the reading, and a sleep that isn't stopped lasts
-- until its instant.
pub record Behaves {W : Type 0} (rt : Runtime W) (time : W → ℕ) : Type 0 where
  pub now_after : (w : W) → time w ≤ (rt.now w).1
  pub now_before : (w : W) → (rt.now w).1 ≤ time (rt.now w).0
  pub system_time_later : (w : W) → time w ≤ time (rt.system_time w).0
  pub sleep_later : (at : ℕ) (w : W) → time w ≤ time (rt.sleep_until at w).0
  pub woken : (at : ℕ) (w : W) → (rt.sleep_until at w).1 ≡ true → at ≤ time (rt.sleep_until at w).0
  pub process_later : (tick : CronTick) (w : W) → time w ≤ time (rt.process tick w).0
  pub log_later : (o : Outcome) (w : W) → time w ≤ time (rt.log o w)
  pub spawn_later : (tick : CronTick) (w : W) → time w ≤ time (rt.spawn tick w)

module _ {W : Type 0} (rt : Runtime W) (latest : ℕ) (time : W → ℕ) (b : Behaves rt time) where
  execute_later : (tick : CronTick) (w : W) → time w ≤ time (execute rt latest tick w)
  unfolding execute
  execute_later tick w = of (rt.process tick w) (b.process_later tick w)
    where
      of : (x : W × Outcome) → time w ≤ time x.0 → time w ≤ time (logged rt latest x)
      of (w', completed) l = l
      of (w', failed) l = let m = b.log_later failed w' in omega arith
      of (w', panicked) l = let m = b.log_later panicked w' in omega arith

  module _ (interval : CronJobInterval) (next : ℕ → ℕ → ℕ)
      (h : (r : Ran)
        → r.started ≤ r.finished
        → next_start latest interval r ≤ max (next r.started r.finished) r.finished)
      (apart : 0 < duration interval) (no_grid : (at : ℕ) (r : Ran) → OnGrid interval at r) where
    serial-Follows :
        (turns scheduled run at : ℕ) (w : W)
        → at ≤ max scheduled (time w)
        → Follows latest interval at run (serial_loop rt latest next turns scheduled run w).1
    unfolding serial_loop serial_turn
    serial-Follows zero scheduled run at w l = tt
    serial-Follows (suc turns) scheduled run at w l =
        slept (rt.sleep_until scheduled w) (b.sleep_later scheduled w) (b.woken scheduled w)
          (serial-Follows turns)
      where
        slept :
            (x : W × Bool)
            → time w ≤ time x.0
            → (x.1 ≡ true → scheduled ≤ time x.0)
            → ((scheduled run at : ℕ) (w : W)
                → at ≤ max scheduled (time w)
                → Follows latest interval at run
                    (serial_loop rt latest next turns scheduled run w).1)
            → Follows latest interval at run
                (unless_stopped rt latest x (λ w'.
                  let (w'', ran) = serial_turn rt latest scheduled run w' in
                  ran_then rt latest ran (
                    serial_loop rt latest next turns
                      (next ran.started ran.finished)
                      (wrapping_succ run)
                      w''))).1
        slept (w', false) m k rest = tt
        slept (w', true) m k rest =
            let s = k refl in
            let a = b.now_after w' in
            let a' = b.now_before w' in
            let w1 = (rt.now w').0 in
            let c = b.system_time_later w1 in
            let w2 = (rt.system_time w1).0 in
            let tick : CronTick = record { run = run; fired_at = (rt.system_time w1).1 } in
            let d = execute_later tick w2 in
            let w3 = execute rt latest tick w2 in
            let e = b.now_after w3 in
            let e' = b.now_before w3 in
            let ran = (serial_turn rt latest scheduled run w').1 in
            let o : ran.started ≤ ran.finished = omega arith in
            let n = h ran o in
            (
              omega arith,
              o,
              refl,
              no_grid at ran,
              next_start latest interval ran,
              next_start-NextStart latest interval ran apart,
              rest (next ran.started ran.finished) (wrapping_succ run)
                  (next_start latest interval ran) (serial_turn rt latest scheduled run w').0
                  (omega arith),
            )

  overlapping-Follows :
      (period turns scheduled run : ℕ) (w : W)
      → 0 < period
      → Follows latest
          (after_start period)
          scheduled
          run
          (overlapping_loop rt latest period turns scheduled run w).1
  unfolding overlapping_loop spawn_turn duration
  overlapping-Follows period zero scheduled run w p = tt
  overlapping-Follows period (suc turns) scheduled run w p =
      slept (rt.sleep_until scheduled w) (b.woken scheduled w)
        (λ scheduled run w. overlapping-Follows period turns scheduled run w p)
    where
      slept :
          (x : W × Bool)
          → (x.1 ≡ true → scheduled ≤ time x.0)
          → ((scheduled run : ℕ) (w : W)
              → Follows latest
                  (after_start period)
                  scheduled
                  run
                  (overlapping_loop rt latest period turns scheduled run w).1)
          → Follows latest
              (after_start period)
              scheduled
              run
              (unless_stopped rt latest x (λ w'.
                let (w'', ran) = spawn_turn rt latest scheduled run w' in
                ran_then rt latest ran (
                  overlapping_loop rt latest period turns
                    (next_tick latest scheduled ran.started period)
                    (wrapping_succ run)
                    w''))).1
      slept (w', false) k rest = tt
      slept (w', true) k rest =
          let s = k refl in
          let c = b.system_time_later w' in
          let w1 = (rt.system_time w').0 in
          let tick : CronTick = record { run = run; fired_at = (rt.system_time w').1 } in
          let d = b.spawn_later tick w1 in
          let e = b.now_after (rt.spawn tick w1) in
          let ran = (spawn_turn rt latest scheduled run w').1 in
          (
            omega arith,
            omega arith,
            refl,
            refl,
            next_tick latest scheduled ran.started period,
            next_start-NextStart latest (after_start period) ran p,
            rest (next_tick latest scheduled ran.started period) (wrapping_succ run)
                (spawn_turn rt latest scheduled run w').0,
          )

  -- However many turns a job's loop takes, its runs are numbered from 0 on, with wrapping, and the first doesn't
  -- start before the job itself. With `AfterFinish(d)` each starts at least `d` after the end of the
  -- one before, with `AtLeast(d)` at least `d` after its start and not before its end; where the clock
  -- ends before, `d` counts as 0. With `AfterStart(d)` each is scheduled for the first point of the grid
  -- of `d` after the one before that was not over when that one was spawned, and doesn't start
  -- before it, unless the clock ends or 64 bits overflow. The duration `d` is
  -- not 0, the clock doesn't go back, and a sleep lasts until its instant.
  pub run_job-Follows :
      (interval : CronJobInterval) (turns : ℕ) (w : W)
      → 0 < duration interval
      → (first : ℕ) × (time w ≤ first)
        × Follows latest interval first 0 (run_job rt latest interval turns w).1
  unfolding run_job run_serially run_overlapping later duration
  run_job-Follows (after_finish d) turns w p =
      let a = b.now_after w in
      (
        time w,
        omega arith,
        serial-Follows (after_finish d) (λ started finished. later latest finished d)
            (λ r o. omega arith) p (λ at r. tt) turns (rt.now w).1 0 (time w) (rt.now w).0
            (omega arith),
      )
  run_job-Follows (at_least d) turns w p =
      let a = b.now_after w in
      (
        time w,
        omega arith,
        serial-Follows (at_least d) (λ started finished. later latest started d)
            (λ r o. omega arith) p (λ at r. tt) turns (rt.now w).1 0 (time w) (rt.now w).0
            (omega arith),
      )
  run_job-Follows (after_start d) turns w p =
      ((rt.now w).1, b.now_after w, overlapping-Follows d turns (rt.now w).1 0 (rt.now w).0 p)
