-- ===== src/Consumer/Backoff/Returns.antt =====
-- `until_ok` (wakuwaku-iggy/src/utils/backoff.rs) returns once the operation succeeds.
mod Examples
use wakuwaku.Base.{
  ℕ, zero, suc, ◌+◌, ◌≤◌, ◌<◌, ◌≡◌, refl, sym, ap, ◌∙◌, List, Option, none, some, Result, ok, err,
  saturating_add, arith, Result-cases, inl, inr, subst,
}
use wakuwaku.Consumer.Backoff.{Duration, delay_for, until_ok}

module _ {W E A : Type 0} (sleep : Duration → W → W) (delays : List Duration)
    (op : W → W × Result E A) where
  -- Repeated failures of the operation from a world on, the attempts numbered from `n`: after each the
  -- task sleeps for the delay of the attempt.
  pub data Fails (n : ℕ) (w : W) : ℕ → W → Type 0 where
    at_first : Fails n w n w
    again :
        (m : ℕ) (v : W) (e : E)
        → Fails n w m v
        → (op v).1 ≡ err e
        → Fails n w (saturating_add m 1) (sleep (delay_for delays m) (op v).0)

  -- What `until_ok` returns is the result of the first attempt that succeeds, after failures only.
  pub record Succeeds (n : ℕ) (w w' : W) (a : A) : Type 0 where
    pub attempt : ℕ
    pub last : W
    pub failures : Fails n w attempt last
    pub success : op last ≡ (w', ok a)

  -- A failure before the others.
  Fails-before :
      (n : ℕ) (w : W) (e : E)
      → (op w).1 ≡ err e
      → (m : ℕ) (v : W) → Fails (saturating_add n 1) (sleep (delay_for delays n) (op w).0) m v
      → Fails n w m v
  Fails-before n w e f m v at_first = again n w e at_first f
  Fails-before n w e f m v (again k u x g h) = again k u x (Fails-before n w e f k u g) h

  module _ (left : W → ℕ) (sleeps : (d : Duration) (w : W) → left (sleep d w) ≤ left w)
      (fails : (w : W) (e : E) → (op w).1 ≡ err e → left (op w).0 < left w) where
    -- If each failure lowers a measure of the world that no sleep raises, more attempts than the measure
    -- are enough for `until_ok` to return, with the result of the first attempt that succeeds.
    pub until_ok-Succeeds :
        (fuel n : ℕ) (w : W)
        → left w < fuel
        → (w' : W) × (a : A) × (until_ok sleep delays op fuel n w ≡ some (w', a))
          × Succeeds n w w' a
    unfolding until_ok
    until_ok-Succeeds zero n w h = absurd (omega arith)
    until_ok-Succeeds (suc fuel) n w h = elim (Result-cases (op w).1) [
      | inl (a, e) ↦ (
        (op w).0,
        a,
        rw (until_ok, e) refl,
        record {
          attempt = n;
          last = w;
          failures = at_first;
          success = ap (λ (r : Result E A). ((op w).0, r)) e;
        },
      )
      | inr (x, e) ↦
          let v = sleep (delay_for delays n) (op w).0 in
          let (w', a, f, s) =
            until_ok-Succeeds fuel (saturating_add n 1) v
              (omega (arith, sleeps (delay_for delays n) (op w).0, fails w x e)) in
          (
            w',
            a,
            rw (until_ok, e) f,
            record {
              attempt = s.attempt;
              last = s.last;
              failures = Fails-before n w x e s.attempt s.last s.failures;
              success = s.success;
            },
          )
    ]
