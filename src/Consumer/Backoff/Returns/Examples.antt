-- ===== src/Consumer/Backoff/Returns/Examples.antt =====
-- An operation that fails twice and then succeeds.
use wakuwaku.Base.{
  ℕ, zero, suc, ◌+◌, ◌≤◌, ◌<◌, ◌≡◌, refl, List, [], ◌∷◌, some, Result, ok, err, arith,
}
use wakuwaku.Consumer.Backoff.{Duration, delay_for, until_ok}
use wakuwaku.Consumer.Backoff.Returns.{Succeeds, until_ok-Succeeds}

-- The failures that are left, and the time.
abbrev World : Type 0
World = ℕ × ℕ

abbrev sleep : Duration → World → World
sleep d (n, t) = (n, t + d)

abbrev op : World → World × Result ℕ ℕ
op (zero, t) = ((0, t), ok 7)
op (suc n, t) = ((n, t), err 5)

abbrev delays : List Duration
delays = 2 ∷ 4 ∷ []

abbrev left : World → ℕ
left (n, t) = n

sleeps : (d : Duration) (w : World) → left (sleep d w) ≤ left w
sleeps d w = omega arith

fails : (w : World) (e : ℕ) → (op w).1 ≡ err e → left (op w).0 < left w
fails (zero, t) e f = absurd (cc)
fails (suc n, t) e f = omega arith

two_failures : until_ok sleep delays op 3 0 (2, 0) ≡ some ((0, 6), 7)
unfolding until_ok delay_for
two_failures = refl

until_ok-Succeeds_example :
    (w : World) × (a : ℕ) × (until_ok sleep delays op 3 0 (2, 0) ≡ some (w, a))
    × Succeeds sleep delays op 0 (2, 0) w a
until_ok-Succeeds_example =
    until_ok-Succeeds sleep delays op left sleeps fails 3 0 (2, 0) (omega arith)
