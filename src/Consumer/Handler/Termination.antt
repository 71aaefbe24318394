-- ===== src/Consumer/Handler/Termination.antt =====
-- `handle_events` (wakuwaku-iggy/src/consumer/handler.rs) returns when the handler's transient failures
-- come to an end.
use wakuwaku.Base.{
  ℕ, zero, suc, ◌≤◌, ◌<◌, ◌≡◌, refl, List, [], ◌∷◌, Option, none, some, length, arith,
  saturating_add, u64_max, ◌∙◌,
}
use wakuwaku.Partition.Algebra.{Algebra}
use wakuwaku.Consumer.Backoff.{Duration, delay_for}
use wakuwaku.Consumer.Handler.{
  ErrorClass, transient, retryable, unrecoverable, HandleError, RunRecord, RunResult, done, failed,
  encode, decode, attempt_chunk, handle_events,
}
use wakuwaku.Consumer.Handler.Chunks.{process, chunks, flatten, handle_events-process}

-- The call returns, and the world is at least as close to the end of its failures.
abbrev Returns : {W Err : Type 0} → (W → ℕ) → ℕ → Option (W × Option Err) → Type 0
Returns {W} {Err} patience bound call =
    (res : W × Option Err) × (call ≡ some res) × (patience res.0 ≤ bound)

module _ {W Err : Type 0} (patience : W → ℕ) (bound : ℕ) (w : W)
    (again : Option (W × Option Err)) where
  -- What `attempt_chunk` does with an error of a class.
  by_class :
      (class : ErrorClass) (source : Err)
      → patience w ≤ bound
      → (class ≡ transient → Returns patience bound again)
      → Returns patience bound (elim class [
        | transient ↦ again
        | unrecoverable ↦ some (w, none)
        | retryable ↦ some (w, some source)
      ])
  by_class transient source h t = t refl
  by_class unrecoverable source h t = ((w, none), refl, h)
  by_class retryable source h t = ((w, some source), refl, h)

  -- What `attempt_chunk` does with the handler's answer.
  by_outcome :
      (o : Option (HandleError Err))
      → patience w ≤ bound
      → ((error : HandleError Err)
          → o ≡ some error
          → error.class ≡ transient
          → Returns patience bound again)
      → Returns {Err = Err} patience bound (elim o [
        | none ↦ some (w, none)
        | some error ↦ elim error.class [
          | transient ↦ again
          | unrecoverable ↦ some (w, none)
          | retryable ↦ some (w, some error.source)
        ]
      ])
  by_outcome none h t = ((w, none), refl, h)
  by_outcome (some error) h t = by_class error.class error.source h (t error refl)

module _ {T W Err : Type 0} (handle : W → List T → W × Option (HandleError Err))
    (sleep : W → Duration → W) (delays : List Duration) (patience : W → ℕ)
    (handle_le : (w : W) (c : List T) → patience (handle w c).0 ≤ patience w)
    (transient_lt : (w : W) (c : List T) (error : HandleError Err)
      → (handle w c).1 ≡ some error
      → error.class ≡ transient
      → patience (handle w c).0 < patience w)
    (sleep_le : (w : W) (d : Duration) → patience (sleep w d) ≤ patience w) where
  attempt_chunk-Returns :
      (fuel : ℕ) (c : List T) (attempt : ℕ) (w : W)
      → patience w < fuel
      → Returns patience (patience w) (attempt_chunk handle sleep delays fuel c attempt w)
  unfolding attempt_chunk
  attempt_chunk-Returns zero c attempt w p = absurd (omega arith)
  attempt_chunk-Returns (suc fuel) c attempt w p =
      let hw : W = (handle w c).0 in
      let next : W = sleep hw (delay_for delays attempt) in
      by_outcome patience (patience w) hw _ (handle w c).1 (handle_le w c) (λ error e t.
        let lt = transient_lt w c error e t in
        let (res, r, le) =
          attempt_chunk-Returns fuel c (saturating_add attempt 1) next
            (omega (arith, sleep_le hw (delay_for delays attempt))) in
        (res, r, omega (arith, sleep_le hw (delay_for delays attempt))))

  process_round :
      (to_bytes : T → Option (List ℕ)) (fuel : ℕ) (c : List T) (cs : List (List T)) (w : W)
      (res : W × Option Err)
      → attempt_chunk handle sleep delays fuel c 0 w ≡ some res
      → ((res' : W × RunResult Err) × (process handle sleep delays to_bytes fuel cs res.0
            ≡ some res'))
      → (res' : W × RunResult Err) × (process handle sleep delays to_bytes fuel (c ∷ cs) w
          ≡ some res')
  unfolding process
  process_round to_bytes fuel c cs w (w', none) r (res', q) = (res', rw (process, r) q)
  process_round to_bytes fuel c cs w (w', some error) r next =
      ((w', failed error (encode to_bytes (flatten (c ∷ cs)))), rw (process, r) refl)

  process_returns :
      (to_bytes : T → Option (List ℕ)) (fuel : ℕ) (cs : List (List T)) (w : W)
      → patience w < fuel
      → (res : W × RunResult Err) × (process handle sleep delays to_bytes fuel cs w ≡ some res)
  unfolding process
  process_returns to_bytes fuel [] w p = ((w, done), refl)
  process_returns to_bytes fuel (c ∷ cs) w p =
      let (res, r, le) = attempt_chunk-Returns fuel c 0 w p in
      process_round to_bytes fuel c cs w res r
        (process_returns to_bytes fuel cs res.0 (omega (arith, le)))

  -- `handle_events` returns, whatever the run, when the fuel for the attempts exceeds a measure of
  -- the world that no call of the handler and no sleep increases and that each transient failure
  -- decreases, if `MAX_BATCH` is not zero and the run has fewer than 2^64 events.
  pub handle_events_returns :
      (to_bytes : T → Option (List ℕ)) (n fuel : ℕ) (from_bytes : List ℕ → Option T)
      (algebra : Algebra T) (run : List RunRecord) (w : W)
      → 0 < n
      → length (decode from_bytes algebra run) ≤ u64_max
      → patience w < fuel
      → (res : W × RunResult Err) × (handle_events handle sleep delays to_bytes n fuel from_bytes
            algebra run w
          ≡ some res)
  handle_events_returns to_bytes n fuel from_bytes algebra run w h b p =
      let events = decode from_bytes algebra run in
      let (res, q) = process_returns to_bytes fuel (chunks (length events) n events) w p in
      (
        res,
        (handle_events-process handle sleep delays to_bytes fuel n from_bytes algebra run w h b).0
            ∙ q,
      )
