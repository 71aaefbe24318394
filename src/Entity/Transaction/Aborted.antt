-- ===== src/Entity/Transaction/Aborted.antt =====
-- A transaction that a statement aborted (wakuwaku-entity/src/sqlx/transaction/flow.rs) sends nothing more
-- but `ROLLBACK`.
use wakuwaku.Base.{true, false, none, err, ◌≡◌, refl, ◌⊎◌, inl, inr}
use wakuwaku.Entity.Transaction.{
  TxEnd, TxState, Server, Step, with_state, end, run, TxFlow, end_at, end_tx, run_query, run_step,
}

module _ {W F C A R E Q X QE : Type 0} (server : Server W E Q X QE)
    (flow : TxFlow F C A R Q X QE) where
  -- The transaction is open and nothing was sent, or closed by `ROLLBACK` alone.
  pub record OnlyRolledBack (w : W) (x : W × TxState F E) : Type 0 where
    pub aborted : x.1.aborted ≡ true
    pub not_committed : x.1.commit ≡ none
    pub sent : ((x.1.tx ≡ true) × (x.0 ≡ w)) ⊎ ((x.1.tx ≡ false) × (x.0 ≡ server.rollback w))

  end_at-OnlyRolledBack :
      (e : TxEnd C A R) (w : W)
      → OnlyRolledBack w (end_at server flow e w (record { aborted = true }))
  unfolding end_at
  end_at-OnlyRolledBack (TxEnd.commit o r) w = record {
    aborted = refl;
    not_committed = refl;
    sent = inr (refl, refl);
  }
  end_at-OnlyRolledBack (TxEnd.rollback o r) w = record {
    aborted = refl;
    not_committed = refl;
    sent = inr (refl, refl);
  }

  end_tx-OnlyRolledBack :
      (state : F) (w : W)
      → OnlyRolledBack w (end_tx server flow state w (record { aborted = true }))
  unfolding end_tx
  end_tx-OnlyRolledBack state w = at (flow.finished state)
    where
      at :
          (o : F ⊎ TxEnd C A R)
          → OnlyRolledBack w (elim o [
            | inl state' ↦ (w, record { tx = true; state = state'; aborted = true; commit = none })
            | inr e ↦ end_at server flow e w (record { aborted = true })
          ])
      at (inl state') = record { aborted = refl; not_committed = refl; sent = inl (refl, refl) }
      at (inr e) = end_at-OnlyRolledBack e w

  -- Whatever queries the rest of a step runs once the transaction is aborted, none is sent, and if the
  -- step ends the transaction, `ROLLBACK` is all that is sent, even where the flow commits.
  pub run_step-OnlyRolledBack :
      (p : Step F Q X QE) (w : W)
      → OnlyRolledBack w (run_step server flow p w (record { aborted = true }))
  unfolding run_step run_query
  run_step-OnlyRolledBack (with_state state) w = record {
    aborted = refl;
    not_committed = refl;
    sent = inl (refl, refl);
  }
  run_step-OnlyRolledBack (end state) w = end_tx-OnlyRolledBack state w
  run_step-OnlyRolledBack (run query next) w =
      run_step-OnlyRolledBack (next (err (server.of_sqlx_error server.already_aborted))) w
