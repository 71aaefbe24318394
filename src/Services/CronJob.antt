-- ===== src/Services/CronJob.antt =====
-- wakuwaku/src/services/cron_job.rs: the loops that run a job on its schedule. Tokio, the clocks and the job are
-- parameters; the loops return, beside the world, a list of the runs that they started.
pub mod Grid
pub mod Starts
pub mod Spaced
mod Examples
use wakuwaku.Base.{
  ℕ, zero, suc, ◌+◌, ◌-◌, ◌*◌, ◌/◌, ◌%◌, max, leb, Bool, true, false, List, [], ◌∷◌, if◌then◌else◌,
  u64_max, ceil_div,
}

pub record CronTick : Type 0 where
  pub run : ℕ
  pub fired_at : ℕ

pub data CronJobInterval : Type 0 where
  after_finish at_least after_start : ℕ → CronJobInterval

unfoldable pub duration : CronJobInterval → ℕ
duration (after_finish d) = d
duration (at_least d) = d
duration (after_start d) = d

pub data Outcome : Type 0 where
  completed failed panicked : Outcome

pub record Runtime (W : Type 0) : Type 0 where
  -- `Instant::now()` and `SystemTime::now()`
  pub now : W → W × ℕ
  pub system_time : W → W × ℕ
  -- the `select!` up to an instant, in which finished runs may be reaped: `false` once it is to stop
  pub sleep_until : ℕ → W → W × Bool
  -- `job.process(tick)`, with panics caught
  pub process : CronTick → W → W × Outcome
  -- the report of an outcome
  pub log : Outcome → W → W
  -- `runs.spawn(..)` of a run, and the wait for the runs in progress
  pub spawn : CronTick → W → W
  pub join : W → W

-- A run: its tick, the instants when it was scheduled, when it started and, where the loop waits for it, when it
-- finished.
pub record Ran : Type 0 where
  pub tick : CronTick
  pub scheduled : ℕ
  pub started : ℕ
  pub finished : ℕ

-- `run.wrapping_add(1)`
abbrev pub wrapping_succ : ℕ → ℕ
wrapping_succ run = (run + 1) % 18446744073709551616

-- `instant.checked_add(duration)`, with another instant where the clock ends before.
abbrev pub add_or : ℕ → ℕ → ℕ → ℕ → ℕ
add_or latest instant d other = if leb (instant + d) latest then instant + d else other

unfoldable pub later : ℕ → ℕ → ℕ → ℕ
later latest instant d = add_or latest instant d instant

unfoldable pub next_tick : ℕ → ℕ → ℕ → ℕ → ℕ
next_tick latest previous now period =
    let nanos = period * max (ceil_div (now - previous) period) 1 in
    let missed = add_or latest now period now in
    if leb nanos u64_max then add_or latest previous nanos missed else missed

module _ {W : Type 0} (rt : Runtime W) (latest : ℕ) where
  abbrev pub logged : W × Outcome → W
  logged (w, completed) = w
  logged (w, failed) = rt.log failed w
  logged (w, panicked) = rt.log panicked w

  unfoldable pub execute : CronTick → W → W
  execute tick w = logged (rt.process tick w)

  -- One turn of the loop of `run_serially`, once the instant has come.
  unfoldable pub serial_turn : ℕ → ℕ → W → W × Ran
  unfolding execute
  serial_turn scheduled run w =
      let (w1, started) = rt.now w in
      let (w2, fired_at) = rt.system_time w1 in
      let tick : CronTick = record { run = run; fired_at = fired_at } in
      let (w3, finished) = rt.now (execute tick w2) in
      (w3, record { tick = tick; scheduled = scheduled; started = started; finished = finished })

  abbrev pub unless_stopped : W × Bool → (W → W × List Ran) → W × List Ran
  unless_stopped (w, false) turn = (w, [])
  unless_stopped (w, true) turn = turn w

  abbrev pub ran_then : Ran → W × List Ran → W × List Ran
  ran_then ran (w, rans) = (w, ran ∷ rans)

  unfoldable pub serial_loop : (ℕ → ℕ → ℕ) → ℕ → ℕ → ℕ → W → W × List Ran
  unfolding serial_turn
  serial_loop next_start zero scheduled run w = (w, [])
  serial_loop next_start (suc turns) scheduled run w =
      unless_stopped (rt.sleep_until scheduled w) (λ w'.
        let (w'', ran) = serial_turn scheduled run w' in
        ran_then ran (
          serial_loop next_start turns (next_start ran.started ran.finished) (wrapping_succ run)
            w''))

  unfoldable pub run_serially : (ℕ → ℕ → ℕ) → ℕ → W → W × List Ran
  unfolding serial_loop
  run_serially next_start turns w =
      let (w', scheduled) = rt.now w in serial_loop next_start turns scheduled 0 w'

  -- One turn of the loop of `run_overlapping`: the run, as it is spawned, and the world after it.
  unfoldable pub spawn_turn : ℕ → ℕ → W → W × Ran
  spawn_turn scheduled run w =
      let (w1, fired_at) = rt.system_time w in
      let tick : CronTick = record { run = run; fired_at = fired_at } in
      let (w2, now) = rt.now (rt.spawn tick w1) in
      (w2, record { tick = tick; scheduled = scheduled; started = now; finished = now })

  unfoldable pub overlapping_loop : ℕ → ℕ → ℕ → ℕ → W → W × List Ran
  unfolding spawn_turn next_tick
  overlapping_loop period zero scheduled run w = (w, [])
  overlapping_loop period (suc turns) scheduled run w =
      unless_stopped (rt.sleep_until scheduled w) (λ w'.
        let (w'', ran) = spawn_turn scheduled run w' in
        ran_then ran (
          overlapping_loop period turns (next_tick latest scheduled ran.started period)
            (wrapping_succ run) w''))

  unfoldable pub run_overlapping : ℕ → ℕ → W → W × List Ran
  unfolding overlapping_loop
  run_overlapping period turns w =
      let (w', scheduled) = rt.now w in
      let (w'', rans) = overlapping_loop period turns scheduled 0 w' in (rt.join w'', rans)

  unfoldable pub run_job : CronJobInterval → ℕ → W → W × List Ran
  unfolding run_serially run_overlapping later
  run_job (after_finish pause) turns w =
      run_serially (λ started finished. later latest finished pause) turns w
  run_job (at_least period) turns w =
      run_serially (λ started finished. later latest started period) turns w
  run_job (after_start period) turns w = run_overlapping period turns w
