-- ===== src/Entity/Transaction/Driven.antt =====
-- The loop of `drive` (wakuwaku-entity/src/sqlx/transaction/mod.rs).
use wakuwaku.Base.{
  ℕ, zero, suc, Bool, false, Option, none, some, Result, ok, err, ◌≡◌, refl, sym, ap, subst, ◌⊎◌,
  inl, inr, some_inj,
}
use wakuwaku.Entity.Transaction.{
  TxEnd, TxOutput, TxFinalState, TxError, Tx, Done, Server, Step, with_state, end, run, TxFlow,
  end_tx, run_query, run_step, into_open, round, after_round, drive_loop, drive,
}
use wakuwaku.Entity.Transaction.Outcome.{EndsAs, end_tx-EndsAs, end_tx_open}

module _ {W F C A R E Q X QE : Type 0} (server : Server W E Q X QE)
    (flow : TxFlow F C A R Q X QE) where
  -- The connection is as some end of a transaction left it, and the result is that end's.
  abbrev pub Ended : W → Done C A R E → Type 0
  Ended w d =
      (before : W) × (aborted : Bool) × (e : TxEnd C A R) × (output : Result (TxError E)
        (TxOutput C A))
      × (report : TxFinalState R) × (d ≡ record { output = output; report = some report })
      × EndsAs server flow before aborted e w output report

  -- A transaction that is closed has ended.
  abbrev Fine : W × ((Tx × F) ⊎ Done C A R E) → Type 0
  Fine (w, inl open_) = Unit {0}
  Fine (w, inr d) = Ended w d

  module _ (finished_end : (e : TxEnd C A R) → flow.finished (flow.from_end e) ≡ inr e) where
    end_tx-Fine :
        (state : F) (w : W) (tx : Tx)
        → let (w', s) = end_tx server flow state w tx in Fine (w', into_open server flow s)
    unfolding into_open
    end_tx-Fine state w tx = at (flow.finished state) refl
      where
        at :
            (o : F ⊎ TxEnd C A R)
            → flow.finished state ≡ o
            → let (w', s) = end_tx server flow state w tx in Fine (w', into_open server flow s)
        at (inl state') q =
            subst (λ x. Fine (x.0, into_open server flow x.1))
              (sym (end_tx_open server flow state state' w tx q)) tt
        at (inr e) q =
            let (output, report, d, ends) = end_tx-EndsAs server flow finished_end state e w tx q in
            subst (λ x. Fine ((end_tx server flow state w tx).0, x)) (sym d)
              (w, tx.aborted, e, output, report, refl, ends)

    run_step-Fine :
        (p : Step F Q X QE) (w : W) (tx : Tx)
        → let (w', s) = run_step server flow p w tx in Fine (w', into_open server flow s)
    unfolding run_step into_open
    run_step-Fine (with_state state) w tx = tt
    run_step-Fine (end state) w tx = end_tx-Fine state w tx
    run_step-Fine (run query next) w tx =
        let (w', (tx', result)) = run_query server flow query w tx in
        run_step-Fine (next result) w' tx'

    round-Fine : (state : F) (w : W) (tx : Tx) → Fine (round server flow state w tx)
    unfolding round
    round-Fine state w tx =
        at (end_tx server flow state w tx).0
          (into_open server flow (end_tx server flow state w tx).1) (end_tx-Fine state w tx)
      where
        at :
            (w1 : W) (o : (Tx × F) ⊎ Done C A R E)
            → Fine (w1, o)
            → Fine (elim o [
              | inr result ↦ (w1, inr result)
              | inl (tx1, state1) ↦
                  let (w2, stepped) = run_step server flow (flow.step state1) w1 tx1 in
                  (w2, into_open server flow stepped)
            ])
        at w1 (inr result) f = f
        at w1 (inl (tx1, state1)) f = run_step-Fine (flow.step state1) w1 tx1

    drive_loop-Ended :
        (fuel : ℕ) (state : F) (w w' : W) (tx : Tx) (d : Done C A R E)
        → drive_loop server flow fuel state w tx ≡ some (w', d)
        → Ended w' d
    unfolding drive_loop
    drive_loop-Ended zero state w w' tx d q = absurd (cc q)
    drive_loop-Ended (suc fuel) state w w' tx d q =
        at (round server flow state w tx) (round-Fine state w tx) q
          (λ v tx' state'. drive_loop-Ended fuel state' v w' tx' d)
      where
        at :
            (x : W × ((Tx × F) ⊎ Done C A R E))
            → Fine x
            → after_round server flow (drive_loop server flow fuel) x ≡ some (w', d)
            → ((v : W) (tx' : Tx) (state' : F)
                → drive_loop server flow fuel state' v tx' ≡ some (w', d)
                → Ended w' d)
            → Ended w' d
        at (v, inr result) f q later = subst (λ x. Ended x.0 x.1) (some_inj q) f
        at (v, inl (tx', state')) f q later = later v tx' state' q

    -- If `drive` returns, either the transaction never began, the caller has that error and the hook
    -- nothing, or the connection is as one end of a transaction left it, and caller and hook have
    -- the outcome of that end. The flow's projection is the inverse of `From<TxEnd>`.
    pub drive-Ended :
        (fuel : ℕ) (state : F) (w w' : W) (d : Done C A R E)
        → drive server flow fuel state w ≡ some (w', d)
        → ((e : E) × ((server.begin w).1 ≡ err e)
            × (d ≡ record { output = err (TxError.begin e); report = none }))
          ⊎ Ended w' d
    unfolding drive
    drive-Ended fuel state w w' d q = at (server.begin w).1 refl q
      where
        at :
            (r : Result E (Unit {0}))
            → (server.begin w).1 ≡ r
            → ◌≡◌ {A = Option (W × Done C A R E)}
                (elim r [
                  | err e ↦
                      some (
                        (server.begin w).0,
                        record { output = err (TxError.begin e); report = none },
                      )
                  | ok u ↦
                      drive_loop server flow fuel state
                        (server.begin w).0
                        (record { aborted = false })
                ])
                (some (w', d))
            → ((e : E) × ((server.begin w).1 ≡ err e)
                × (d ≡ record { output = err (TxError.begin e); report = none }))
              ⊎ Ended w' d
        at (err e) b q = inl (e, b, sym (ap (λ x. x.1) (some_inj q)))
        at (ok u) b q = inr (drive_loop-Ended fuel state (server.begin w).0 w' _ d q)
