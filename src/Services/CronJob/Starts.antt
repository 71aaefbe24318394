-- ===== src/Services/CronJob/Starts.antt =====
-- When the runs of a job may start (wakuwaku/src/services/cron_job.rs), for each of the three intervals.
use wakuwaku.Base.{
  ℕ, ◌+◌, ◌-◌, ◌≤◌, ◌<◌, leb, u64_max, Bool-cases, inl, inr, max, ◌≡◌, List, [], ◌∷◌, arith,
}
use wakuwaku.Services.CronJob.{
  duration, CronJobInterval, after_finish, at_least, after_start, Ran, wrapping_succ, later,
  next_tick,
}
use wakuwaku.Services.CronJob.Grid.{IsFirst, next_tick-IsFirst}

-- When the run after `r` may start.
abbrev pub next_start : ℕ → CronJobInterval → Ran → ℕ
next_start latest (after_finish d) r = later latest r.finished d
next_start latest (at_least d) r = max r.finished (later latest r.started d)
next_start latest (after_start d) r = next_tick latest r.scheduled r.started d

-- The earliest start of the run after `r`: with `AfterFinish(d)` `d` after its end, with `AtLeast(d)` `d` after its
-- start but not before its end, and with `AfterStart(d)` the first point of the grid of `d` after its
-- scheduled instant that is not before the time it read. Where the clock ends before, `d` counts as 0 for the first
-- two, and nothing is said for the third.
pub data NextStart (latest : ℕ) : CronJobInterval → Ran → ℕ → Type 0 where
  paused :
      (d : ℕ) (r : Ran)
      → r.finished + d ≤ latest
      → NextStart latest (after_finish d) r (r.finished + d)
  no_pause :
      (d : ℕ) (r : Ran) → latest < r.finished + d → NextStart latest (after_finish d) r r.finished
  spaced :
      (d : ℕ) (r : Ran)
      → r.started + d ≤ latest
      → NextStart latest (at_least d) r (max r.finished (r.started + d))
  no_space :
      (d : ℕ) (r : Ran)
      → latest < r.started + d
      → NextStart latest (at_least d) r (max r.finished r.started)
  on_grid :
      (d : ℕ) (r : Ran) (tick : ℕ)
      → IsFirst r.scheduled r.started d tick
      → NextStart latest (after_start d) r tick
  uncounted :
      (d : ℕ) (r : Ran) (tick : ℕ)
      → u64_max < r.started - r.scheduled + d
      → NextStart latest (after_start d) r tick
  past_clock :
      (d : ℕ) (r : Ran) (tick : ℕ)
      → latest < r.scheduled + (r.started - r.scheduled) + d
      → NextStart latest (after_start d) r tick

-- The grid of `AfterStart` is kept: a run is scheduled for the earliest instant at which it may start.
abbrev pub OnGrid : CronJobInterval → ℕ → Ran → Type 0
OnGrid (after_finish d) at r = Unit {0}
OnGrid (at_least d) at r = Unit {0}
OnGrid (after_start d) at r = r.scheduled ≡ at

-- Each run starts when it may, the first at `at` or after it, with the next number.
abbrev pub Follows : ℕ → CronJobInterval → ℕ → ℕ → List Ran → Type 0
Follows latest interval at run [] = Unit {0}
Follows latest interval at run (r ∷ rs) =
    (at ≤ r.started)
    × (r.started ≤ r.finished)
    × (r.tick.run ≡ run)
    × OnGrid interval at r
    × (later_at : ℕ) × NextStart latest interval r later_at
    × Follows latest interval later_at (wrapping_succ run) rs

pub next_start-NextStart :
    (latest : ℕ) (interval : CronJobInterval) (r : Ran)
    → 0 < duration interval
    → NextStart latest interval r (next_start latest interval r)
unfolding duration later
next_start-NextStart latest (after_finish d) r p = elim (Bool-cases (leb (r.finished + d) latest)) [
  | inl e ↦ rw e (paused d r (ground (arith, e)))
  | inr e ↦ rw e (no_pause d r (ground (arith, e)))
]
next_start-NextStart latest (at_least d) r p = elim (Bool-cases (leb (r.started + d) latest)) [
  | inl e ↦ rw e (spaced d r (ground (arith, e)))
  | inr e ↦ rw e (no_space d r (ground (arith, e)))
]
next_start-NextStart latest (after_start d) r p =
    elim (Bool-cases (leb (r.started - r.scheduled + d) u64_max)) [
      | inr e ↦ uncounted d r _ (ground (arith, e))
      | inl e ↦ elim (Bool-cases (leb (r.scheduled + (r.started - r.scheduled) + d) latest)) [
        | inr f ↦ past_clock d r _ (ground (arith, f))
        | inl f ↦ on_grid d r _ (
            next_tick-IsFirst latest r.scheduled r.started d p (ground (arith, e))
              (ground (arith, f)))
      ]
    ]
