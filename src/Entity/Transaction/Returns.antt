-- ===== src/Entity/Transaction/Returns.antt =====
-- `drive` (wakuwaku-entity/src/sqlx/transaction/mod.rs) returns if its flow makes progress.
use wakuwaku.Base.{
  ℕ, zero, suc, Bool, true, false, Option, none, some, Result, ok, err, ◌≡◌, refl, ◌≤◌, ◌<◌, ◌⊎◌,
  inl, inr, arith,
}
use wakuwaku.Entity.Transaction.{
  TxEnd, TxError, Tx, Done, Server, Step, with_state, end, run, TxFlow, end_at, end_tx, run_query,
  run_step, into_open, round, after_round, drive_loop, drive,
}

module _ {W F C A R E Q X QE : Type 0} (server : Server W E Q X QE) (flow : TxFlow F C A R Q X QE)
    (measure : F → ℕ) where
  -- Whatever the queries return, the program of a step ends in a state of lower measure.
  abbrev pub StepsBelow : ℕ → Step F Q X QE → Type 0
  StepsBelow n (with_state state) = measure state < n
  StepsBelow n (end state) = measure state < n
  StepsBelow n (run query next) = (result : Result QE X) → StepsBelow n (next result)

  -- The flow makes progress: `finished` doesn't raise the measure, and a step from a state that is not terminal
  -- lowers it.
  pub record Progress : Type 0 where
    pub kept :
        (state state' : F) → flow.finished state ≡ inl state' → measure state' ≤ measure state
    pub falls :
        (state state' : F)
        → flow.finished state ≡ inl state'
        → StepsBelow (measure state') (flow.step state')

  -- A transaction that is open has a state of lower measure.
  abbrev Below : ℕ → (Tx × F) ⊎ Done C A R E → Type 0
  Below n (inr d) = Unit {0}
  Below n (inl (tx, state)) = measure state < n

  module _ (progress : Progress) where
    end_tx-Below :
        (n : ℕ) (state : F) (w : W) (tx : Tx)
        → measure state < n
        → Below n (into_open server flow (end_tx server flow state w tx).1)
    unfolding end_tx end_at into_open
    end_tx-Below n state w tx h = at (flow.finished state) tx.aborted refl
      where
        at :
            (o : F ⊎ TxEnd C A R) (b : Bool)
            → flow.finished state ≡ o
            → Below n
                (into_open server flow (end_tx server flow state w (record { aborted = b })).1)
        at (inl state') b q = let k = progress.kept state state' q in rw (end_tx, q) (omega arith)
        at (inr (TxEnd.commit x y)) true q = rw (end_tx, q) tt
        at (inr (TxEnd.commit x y)) false q = rw (end_tx, q) tt
        at (inr (TxEnd.rollback x y)) b q = rw (end_tx, q) tt

    run_step-Below :
        (n : ℕ) (p : Step F Q X QE) (w : W) (tx : Tx)
        → StepsBelow n p
        → Below n (into_open server flow (run_step server flow p w tx).1)
    unfolding run_step into_open
    run_step-Below n (with_state state) w tx h = h
    run_step-Below n (end state) w tx h = end_tx-Below n state w tx h
    run_step-Below n (run query next) w tx h =
        let (w', (tx', result)) = run_query server flow query w tx in
        run_step-Below n (next result) w' tx' (h result)

    Below-le : (m n : ℕ) (o : (Tx × F) ⊎ Done C A R E) → m ≤ n → Below m o → Below n o
    Below-le m n (inr d) l h = tt
    Below-le m n (inl (tx, state)) l h = omega arith

    round-Below :
        (state : F) (w : W) (tx : Tx) → Below (measure state) (round server flow state w tx).1
    unfolding round end_tx end_at into_open
    round-Below state w tx = at (flow.finished state) tx.aborted refl
      where
        at :
            (o : F ⊎ TxEnd C A R) (b : Bool)
            → flow.finished state ≡ o
            → Below (measure state) (round server flow state w (record { aborted = b })).1
        at (inl state') b q =
            rw (round, end_tx, q)
              (Below-le (measure state') (measure state) _ (progress.kept state state' q) (
                run_step-Below (measure state') (flow.step state') _ (record { aborted = b })
                  (progress.falls state state' q)))
        at (inr (TxEnd.commit x y)) true q = rw (round, end_tx, q) tt
        at (inr (TxEnd.commit x y)) false q = rw (round, end_tx, q) tt
        at (inr (TxEnd.rollback x y)) b q = rw (round, end_tx, q) tt

    drive_loop_returns :
        (fuel : ℕ) (state : F) (w : W) (tx : Tx)
        → measure state < fuel
        → (res : W × Done C A R E) × (drive_loop server flow fuel state w tx ≡ some res)
    unfolding drive_loop
    drive_loop_returns zero state w tx h = absurd (omega arith)
    drive_loop_returns (suc fuel) state w tx h =
        at (round server flow state w tx) (round-Below state w tx)
          (λ v tx' state'. drive_loop_returns fuel state' v tx')
      where
        at :
            (x : W × ((Tx × F) ⊎ Done C A R E))
            → Below (measure state) x.1
            → ((v : W) (tx' : Tx) (state' : F)
                → measure state' < fuel
                → (res : W × Done C A R E) × (drive_loop server flow fuel state' v tx' ≡ some res))
            → (res : W × Done C A R E) × (after_round server flow (drive_loop server flow fuel) x
                ≡ some res)
        at (v, inr d) l later = ((v, d), refl)
        at (v, inl (tx', state')) l later = later v tx' state' (omega arith)

    -- `drive` returns, whatever the server answers, if its flow makes progress: for a measure of the flow's states
    -- that `finished` does not raise and that each step from a state that is not terminal lowers, whatever its
    -- queries return. The fuel is above the measure of the first state.
    pub drive_returns :
        (fuel : ℕ) (state : F) (w : W)
        → measure state < fuel
        → (res : W × Done C A R E) × (drive server flow fuel state w ≡ some res)
    unfolding drive
    drive_returns fuel state w h = at (server.begin w).1
      where
        at :
            (r : Result E (Unit {0}))
            → (res : W × Done C A R E) × (◌≡◌ {A = Option (W × Done C A R E)}
                (elim r [
                  | err e ↦
                      some (
                        (server.begin w).0,
                        record { output = err (TxError.begin e); report = none },
                      )
                  | ok u ↦
                      drive_loop server flow fuel state
                        (server.begin w).0
                        (record { aborted = false })
                ])
                (some res))
        at (err e) = (_, refl)
        at (ok u) = drive_loop_returns fuel state (server.begin w).0 _ h
