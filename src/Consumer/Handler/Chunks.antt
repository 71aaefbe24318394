-- ===== src/Consumer/Handler/Chunks.antt =====
-- The loop of `handle_events` (wakuwaku-iggy/src/consumer/handler.rs) goes through the reduced events
-- in chunks, one after another.
use wakuwaku.Base.{
  ℕ, zero, suc, ◌+◌, ◌-◌, ◌≤◌, ◌<◌, ltb, min, ◌≡◌, refl, sym, ap, ◌∙◌, true, false, List, [], ◌∷◌,
  ◌++◌, Option, none, some, length, take, drop, saturating_add, u64_max, arith, dec_lt, length-drop,
  drop-drop, drop-all, take-all, take-append-drop, length-take-le,
}
use wakuwaku.Partition.Algebra.{Algebra}
use wakuwaku.Partition.Plan.View.{slice}
use wakuwaku.Consumer.Backoff.{Duration}
use wakuwaku.Consumer.Handler.{
  HandleError, RunRecord, RunResult, done, failed, decode, encode, attempt_chunk, run_chunks,
  handle_events,
}

module _ {T : Type 0} where
  -- A list cut into pieces of at most `n`, by structural recursion on a bound of its length.
  abbrev pub chunks : ℕ → ℕ → List T → List (List T)
  chunks zero n events = []
  chunks (suc k) n [] = []
  chunks (suc k) n (e ∷ events) = take n (e ∷ events) ∷ chunks k n (drop n (e ∷ events))

  abbrev pub flatten : List (List T) → List T
  flatten [] = []
  flatten (c ∷ cs) = c ++ flatten cs

  -- Each piece holds at most `n` events.
  abbrev pub AllWithin : ℕ → List (List T) → Type 0
  AllWithin n [] = Unit {0}
  AllWithin n (c ∷ cs) = (length c ≤ n) × AllWithin n cs

  pub chunks-AllWithin : (k n : ℕ) (events : List T) → AllWithin n (chunks k n events)
  chunks-AllWithin zero n events = tt
  chunks-AllWithin (suc k) n [] = tt
  chunks-AllWithin (suc k) n (e ∷ events) =
      (length-take-le n (e ∷ events), chunks-AllWithin k n (drop n (e ∷ events)))

  pub flatten-chunks :
      (k n : ℕ) (events : List T) → 0 < n → length events ≤ k → flatten (chunks k n events) ≡ events
  flatten-chunks zero n [] p h = refl
  flatten-chunks zero n (e ∷ events) p h = absurd (omega arith)
  flatten-chunks (suc k) n [] p h = refl
  flatten-chunks (suc k) n (e ∷ events) p h =
      ap (◌++◌ (take n (e ∷ events)))
        (flatten-chunks k n (drop n (e ∷ events)) p (omega (arith, length-drop n (e ∷ events))))
      ∙ take-append-drop n (e ∷ events)

  -- The chunk of a round, and what is left after it.
  round_chunk :
      (n start : ℕ) (events : List T)
      → length events ≤ u64_max
      → start ≤ length events
      → slice events (record { start = start; end = min (saturating_add start n) (length events) })
        ≡ take n (drop start events)
  unfolding slice
  round_chunk n start events h s = elim (dec_lt (length events) (start + n)) [
    | yes p ↦
        take-all (min (saturating_add start n) (length events) - start) (drop start events)
          (ground (arith, length-drop start events))
        ∙ sym (take-all n (drop start events) (omega (arith, length-drop start events)))
    | no p ↦ ap (λ (k : ℕ). take k (drop start events)) (ground arith)
  ]

  round_rest :
      (n start : ℕ) (events : List T)
      → length events ≤ u64_max
      → start ≤ length events
      → drop (min (saturating_add start n) (length events)) events ≡ drop n (drop start events)
  round_rest n start events h s = elim (dec_lt (length events) (start + n)) [
    | yes p ↦
        drop-all (min (saturating_add start n) (length events)) events (ground arith)
        ∙ sym (drop-all n (drop start events) (omega (arith, length-drop start events)))
    | no p ↦ ap (λ (k : ℕ). drop k events) (ground arith) ∙ sym (drop-drop n start events)
  ]

at_end :
    {T : Type 0} (events : List T) (start : ℕ)
    → drop start events ≡ []
    → ltb start (length events) ≡ false
at_end events start e = ground (arith, ap (λ l. length l) e, length-drop start events)

inside :
    {T : Type 0} (events : List T) (start : ℕ) (x : T) (rest : List T)
    → drop start events ≡ x ∷ rest
    → ltb start (length events) ≡ true
inside events start x rest e = ground (arith, ap (λ l. length l) e, length-drop start events)

module _ {T W Err : Type 0} (handle : W → List T → W × Option (HandleError Err))
    (sleep : W → Duration → W) (delays : List Duration) (to_bytes : T → Option (List ℕ))
    (fuel : ℕ) where
  -- The specification: the chunks in order, up to the first that fails.
  unfoldable pub process : List (List T) → W → Option (W × RunResult Err)
  process [] w = some (w, done)
  process (c ∷ cs) w = elim (attempt_chunk handle sleep delays fuel c 0 w) [
    | none ↦ none
    | some (w', none) ↦ process cs w'
    | some (w', some error) ↦ some (w', failed error (encode to_bytes (flatten (c ∷ cs))))
  ]

  -- Two ways to go on from the outcome of a chunk agree if they agree on its world.
  branch_agree :
      (a b : W → Option (W × RunResult Err)) (x y : List (List ℕ))
      → ((w : W) → a w ≡ b w)
      → x ≡ y
      → (res : Option (W × Option Err))
      → ◌≡◌ {A = Option (W × RunResult Err)}
          (elim res [
            | none ↦ none
            | some (w', none) ↦ a w'
            | some (w', some error) ↦ some (w', failed error x)
          ])
          (elim res [
            | none ↦ none
            | some (w', none) ↦ b w'
            | some (w', some error) ↦ some (w', failed error y)
          ])
  branch_agree a b x y f e none = refl
  branch_agree a b x y f e (some (w', none)) = f w'
  branch_agree a b x y f e (some (w', some error)) = rw e

  run_chunks_end :
      (n k : ℕ) (events : List T) (start : ℕ) (w : W)
      → ltb start (length events) ≡ false
      → run_chunks handle sleep delays to_bytes n fuel (suc k) events start w ≡ some (w, done)
  unfolding run_chunks
  run_chunks_end n k events start w t = rw t

  -- A round that still has events left: its chunk is `c`.
  run_chunks_round :
      (n k : ℕ) (events : List T) (start : ℕ) (w : W) (c : List T)
      → ltb start (length events) ≡ true
      → slice events (record { start = start; end = min (saturating_add start n) (length events) })
        ≡ c
      → run_chunks handle sleep delays to_bytes n fuel (suc k) events start w
        ≡ elim (attempt_chunk handle sleep delays fuel c 0 w) [
          | none ↦ none
          | some (w', none) ↦
              run_chunks handle sleep delays to_bytes n fuel k events
                (min (saturating_add start n) (length events))
                w'
          | some (w', some error) ↦ some (w', failed error (encode to_bytes (drop start events)))
        ]
  unfolding run_chunks
  run_chunks_round n k events start w c t e = rw (t, e)

  run_chunks-process :
      (n k : ℕ) (events rest : List T) (start : ℕ) (w : W)
      → 0 < n
      → length events ≤ u64_max
      → start ≤ length events
      → drop start events ≡ rest
      → length rest ≤ k
      → run_chunks handle sleep delays to_bytes n fuel (suc k) events start w
        ≡ process (chunks k n rest) w
  unfolding process
  run_chunks-process n zero events [] start w p h s e l =
      run_chunks_end n zero events start w (at_end events start e)
  run_chunks-process n (suc k) events [] start w p h s e l =
      run_chunks_end n (suc k) events start w (at_end events start e)
  run_chunks-process n zero events (x ∷ rest) start w p h s e l = absurd (omega arith)
  run_chunks-process n (suc k) events (x ∷ rest) start w p h s e l =
      run_chunks_round n (suc k) events start w (take n (x ∷ rest)) (inside events start x rest e)
        (round_chunk n start events h s ∙ ap (take n) e)
      ∙ branch_agree
          (run_chunks handle sleep delays to_bytes n fuel (suc k) events
            (min (saturating_add start n) (length events)))
          (process (chunks k n (drop n (x ∷ rest)))) (encode to_bytes (drop start events))
          (encode to_bytes (flatten (chunks (suc k) n (x ∷ rest))))
          (λ w'.
            run_chunks-process n k events (drop n (x ∷ rest))
              (min (saturating_add start n) (length events)) w' p h (ground arith)
              (round_rest n start events h s ∙ ap (drop n) e)
              (omega (arith, length-drop n (x ∷ rest))))
          (ap (encode to_bytes) (e ∙ sym (flatten-chunks (suc k) n (x ∷ rest) p l)))
          (attempt_chunk handle sleep delays fuel (take n (x ∷ rest)) 0 w)

  -- `handle_events` goes through the chunks of the reduced run in order, if `MAX_BATCH` is not zero and
  -- the run has fewer than 2^64 events. The chunks together are the reduced run and none is longer
  -- than `MAX_BATCH`.
  pub handle_events-process :
      (n : ℕ) (from_bytes : List ℕ → Option T) (algebra : Algebra T) (run : List RunRecord) (w : W)
      → 0 < n
      → length (decode from_bytes algebra run) ≤ u64_max
      → let events = decode from_bytes algebra run in
        let pieces = chunks (length events) n events in
        (handle_events handle sleep delays to_bytes n fuel from_bytes algebra run w
          ≡ process pieces w)
        × (flatten pieces ≡ events)
        × AllWithin n pieces
  unfolding handle_events
  handle_events-process n from_bytes algebra run w p h =
      let events = decode from_bytes algebra run in
      (
        run_chunks-process n (length events) events events 0 w p h (omega arith) refl (omega arith),
        flatten-chunks (length events) n events p (omega arith),
        chunks-AllWithin (length events) n events,
      )
