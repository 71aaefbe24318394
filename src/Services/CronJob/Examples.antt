-- ===== src/Services/CronJob/Examples.antt =====
-- Runs of a job (wakuwaku/src/services/cron_job.rs) in a world that is a clock: a sleep sets it and a run takes 3.
use wakuwaku.Base.{ℕ, ◌+◌, ◌≤◌, ◌<◌, ◌≡◌, max, refl, true, List, [], ◌∷◌, map, arith}
use wakuwaku.Services.CronJob.{
  duration, CronJobInterval, after_finish, at_least, after_start, completed, Runtime, Ran,
  next_tick, later, execute, serial_turn, serial_loop, run_serially, spawn_turn, overlapping_loop,
  run_overlapping, run_job,
}
use wakuwaku.Services.CronJob.Grid.{IsFirst, next_tick-IsFirst}
use wakuwaku.Services.CronJob.Spaced.{Behaves, run_job-Follows}
use wakuwaku.Services.CronJob.Starts.{Follows}

abbrev clock : Runtime ℕ
clock = record {
  now = λ w. (w, w);
  system_time = λ w. (w, w);
  sleep_until = λ at w. (max at w, true);
  process = λ tick w. (w + 3, completed);
  log = λ o w. w;
  spawn = λ tick w. w;
  join = λ w. w;
}

clock-Behaves : Behaves clock (λ w. w)
clock-Behaves = record {
  now_after = λ w. omega arith;
  now_before = λ w. omega arith;
  system_time_later = λ w. omega arith;
  sleep_later = λ at w. omega arith;
  woken = λ at w q. omega arith;
  process_later = λ tick w. omega arith;
  log_later = λ o w. omega arith;
  spawn_later = λ tick w. omega arith;
}

abbrev starts : CronJobInterval → List ℕ
starts interval = map (λ (r : Ran). r.started) (run_job clock 1000 interval 3 100).1

after_finish_starts : starts (after_finish 10) ≡ 100 ∷ 113 ∷ 126 ∷ []
unfolding run_job run_serially serial_loop serial_turn execute later
after_finish_starts = refl

at_least_starts : starts (at_least 2) ≡ 100 ∷ 103 ∷ 106 ∷ []
unfolding run_job run_serially serial_loop serial_turn execute later
at_least_starts = refl

after_start_starts : starts (after_start 10) ≡ 100 ∷ 110 ∷ 120 ∷ []
unfolding run_job run_overlapping overlapping_loop spawn_turn next_tick
after_start_starts = refl

at_least_apart : 0 < duration (at_least 2)
unfolding duration
at_least_apart = omega arith

run_job-Follows_example :
    (first : ℕ) × (100 ≤ first)
    × Follows 1000 (at_least 2) first 0 (run_job clock 1000 (at_least 2) 3 100).1
run_job-Follows_example =
    run_job-Follows clock 1000 (λ w. w) clock-Behaves (at_least 2) 3 100 at_least_apart

-- After the tests of the source: on time, on a grid point, and behind.
on_time : next_tick 1000 100 105 10 ≡ 110
unfolding next_tick
on_time = refl

on_point : next_tick 1000 100 130 10 ≡ 130
unfolding next_tick
on_point = refl

behind : next_tick 1000 100 125 10 ≡ 130
unfolding next_tick
behind = refl

next_tick-IsFirst_example : IsFirst 100 125 10 (next_tick 1000 100 125 10)
next_tick-IsFirst_example =
    next_tick-IsFirst 1000 100 125 10 (omega arith) (omega arith) (omega arith)
