-- ===== src/Services/CronJob/Grid.antt =====
-- The grid of a job that runs after the start of its last run (wakuwaku/src/services/cron_job.rs).
use wakuwaku.Base.{
  ceil_div, ceil_div_iff, leb→le, ℕ, zero, suc, ◌+◌, ◌-◌, ◌*◌, ◌≤◌, ◌<◌, max, ◌≡◌, leb, true,
  Bool-cases, inl, inr, u64_max, arith,
}
use native.Mathlib.Nat.{add-mul, mul_comm}
use wakuwaku.Services.CronJob.{next_tick}

-- `at` is the first of the points `previous + k * period`, for `k` from 1 on, that is not before `now`.
pub record IsFirst (previous now period at : ℕ) : Type 0 where
  pub k : ℕ
  pub positive : 0 < k
  pub on_grid : at ≡ previous + k * period
  pub in_time : now ≤ at
  pub first : (j : ℕ) → 0 < j → j < k → previous + j * period < now

-- Before the least number that is enough, none is.
too_few : (a b j : ℕ) → 0 < b → j < ceil_div a b → j * b < a
too_few a b j h l =
    let (f, g) = ceil_div_iff a b j h in
    elim (Bool-cases (leb a (j * b))) [
      | inl q ↦ let m = g (leb→le a (j * b) q) in absurd (omega arith)
      | inr q ↦ ground (arith, q)
    ]

-- The last point is at most a period late.
below :
    (behind period k : ℕ)
    → 0 < k
    → ((j : ℕ) → 0 < j → j < k → j * period < behind)
    → k * period ≤ behind + period
below behind period (suc zero) p f = let e = mul_comm 1 period in omega arith
below behind period (suc (suc n)) p f =
    let q = f (suc n) (omega arith) (omega arith) in let e = add-mul (suc n) 1 period in omega arith
below behind period zero p f = absurd (omega arith)

le→leb : (a b : ℕ) → a ≤ b → leb a b ≡ true
le→leb a b h = ground arith

-- The next tick is the first grid point after the previous one that is not before now, where the time since
-- the previous one and a period more can be counted in 64 bits and the clock doesn't end before it.
pub next_tick-IsFirst :
    (latest previous now period : ℕ)
    → 0 < period
    → now - previous + period ≤ u64_max
    → previous + (now - previous) + period ≤ latest
    → IsFirst previous now period (next_tick latest previous now period)
unfolding next_tick
next_tick-IsFirst latest previous now period h small ends =
    let behind = now - previous in
    let k = max (ceil_div behind period) 1 in
    let (f, g) = ceil_div_iff behind period k h in
    let enough : behind ≤ k * period = f (omega arith) in
    let before : (j : ℕ) → 0 < j → j < k → j * period < behind =
      λ j p l. too_few behind period j h (omega arith) in
    let bound : k * period ≤ behind + period = below behind period k (omega arith) before in
    let e = mul_comm period k in
    rw
      (
        le→leb (period * k) u64_max (omega arith),
        le→leb (previous + period * k) latest (omega arith),
      )
      (record {
        k = k;
        positive = omega arith;
        on_grid = omega arith;
        in_time = omega arith;
        first = λ j p l. let q = before j p l in omega arith;
      })
