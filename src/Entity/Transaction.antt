-- ===== src/Entity/Transaction.antt =====
-- wakuwaku-entity/src/sqlx/transaction/flow.rs and mod.rs: transactions as state machines. A flow has a
-- type `F` of states, `C` and `A` for the caller, `R` for the hook; `E` is `sqlx::Error`. What sqlx does
-- is a parameter, `Server`, that passes on a state `W` of the connection and its server. A step is a
-- program that runs queries and goes on or ends, which is all that the API of `Tx` allows. The loop of
-- `drive` takes fuel: `none` is a flow that has not ended with it.
pub mod Outcome
pub mod Aborted
pub mod Driven
pub mod Returns
mod Examples
use wakuwaku.Base.{
  ℕ, zero, suc, Bool, true, false, Option, none, some, Result, ok, err, ◌⊎◌, inl, inr,
  if◌then◌else◌,
}

pub data TxEnd (C A R : Type 0) : Type 0 where
  commit : C → R → TxEnd C A R
  rollback : A → R → TxEnd C A R

pub data TxOutput (C A : Type 0) : Type 0 where
  committed : C → TxOutput C A
  rolled_back : A → TxOutput C A

pub data TxFinalState (R : Type 0) : Type 0 where
  committed rolled_back commit_unknown : R → TxFinalState R

pub data TxError (E : Type 0) : Type 0 where
  begin commit_rejected commit_unknown : E → TxError E
  aborted end_mismatch : TxError E

-- The open transaction, next to the connection's state.
pub record Tx : Type 0 where
  pub aborted : Bool

pub record TxState (F E : Type 0) : Type 0 where
  pub tx : Bool  -- whether the transaction is still open
  pub state : F
  pub aborted : Bool
  pub commit : Option (Result E (Unit {0}))  -- the result of `COMMIT`, if it was sent

pub record Done (C A R E : Type 0) : Type 0 where
  pub output : Result (TxError E) (TxOutput C A)
  pub report : Option (TxFinalState R)

-- sqlx, and the queries of a flow, whose errors are or wrap an `E` or not.
pub record Server (W E Q X QE : Type 0) : Type 0 where
  pub begin : W → W × Result E (Unit {0})  -- a connection from the pool, and `BEGIN`
  pub commit : W → W × Result E (Unit {0})
  pub rollback : W → W
  pub execute : Q → W → W × Result QE X
  pub as_sqlx_error : QE → Option E
  pub of_sqlx_error : E → QE
  pub is_database : E → Bool  -- `sqlx::Error::Database(_)`
  pub aborts_transaction : E → Bool
  pub already_aborted : E

-- What a step does with its `Tx`: run a query and see its result, go on, or end.
pub data Step (F Q X QE : Type 0) : Type 0 where
  with_state : F → Step F Q X QE
  end : F → Step F Q X QE
  run : Q → (Result QE X → Step F Q X QE) → Step F Q X QE

-- `TxFlow`: `From<TxEnd>`, `finished` and `step`.
pub record TxFlow (F C A R Q X QE : Type 0) : Type 0 where
  pub from_end : TxEnd C A R → F
  pub finished : F → F ⊎ TxEnd C A R
  pub step : F → Step F Q X QE

-- `is_some_and(aborts_transaction)` of the error behind a query's error.
abbrev pub some_and : {E : Type 0} → Option E → (E → Bool) → Bool
some_and none f = false
some_and (some e) f = f e

-- What became of a transaction whose state is terminal, once `COMMIT`, if sent, had its result.
abbrev pub close_end :
    {C A R E : Type 0}
    → (E → Bool)
    → TxEnd C A R
    → Bool
    → Option (Result E (Unit {0}))
    → Result (TxError E) (TxOutput C A) × TxFinalState R
close_end db (TxEnd.commit output report) ab (some (ok u)) =
    (ok (TxOutput.committed output), TxFinalState.committed report)
close_end db (TxEnd.commit output report) ab (some (err e)) =
    if db e
    then (err (TxError.commit_rejected e), TxFinalState.rolled_back report)
    else (err (TxError.commit_unknown e), TxFinalState.commit_unknown report)
close_end db (TxEnd.commit output report) true none =
    (err TxError.aborted, TxFinalState.rolled_back report)
close_end db (TxEnd.commit output report) false none =
    (err TxError.end_mismatch, TxFinalState.rolled_back report)
close_end db (TxEnd.rollback output report) ab none =
    (ok (TxOutput.rolled_back output), TxFinalState.rolled_back report)
close_end db (TxEnd.rollback output report) ab (some (ok u)) =
    (err TxError.end_mismatch, TxFinalState.committed report)
close_end db (TxEnd.rollback output report) ab (some (err e)) =
    if db e
    then (err TxError.end_mismatch, TxFinalState.rolled_back report)
    else (err TxError.end_mismatch, TxFinalState.commit_unknown report)

module _ {W F C A R E Q X QE : Type 0} (server : Server W E Q X QE)
    (flow : TxFlow F C A R Q X QE) where
  -- `Tx::run`
  pub run_query : Q → W → Tx → W × (Tx × Result QE X)
  run_query query w tx =
      let (w', result) = server.execute query w in
      let ran : W × (Tx × Result QE X) = elim result [
        | ok x ↦ (w', (tx, ok x))
        | err e ↦
            if some_and (server.as_sqlx_error e) server.aborts_transaction
            then (w', (record { aborted = true }, err e))
            else (w', (tx, err e))
      ] in
      if tx.aborted then (w, (tx, err (server.of_sqlx_error server.already_aborted))) else ran

  -- `Tx::with`
  abbrev pub go_on : Tx → F → TxState F E
  go_on tx state = record { tx = true; state = state; aborted = tx.aborted; commit = none }

  -- The state of a transaction that was closed by `Tx::end`.
  abbrev pub closed : Tx → TxEnd C A R → Option (Result E (Unit {0})) → TxState F E
  closed tx e result = record {
    tx = false;
    state = flow.from_end e;
    aborted = tx.aborted;
    commit = result;
  }

  -- `Tx::end` at a terminal state.
  pub end_at : TxEnd C A R → W → Tx → W × TxState F E
  end_at (TxEnd.commit output report) w tx =
      let (w', result) = server.commit w in
      if tx.aborted
      then (server.rollback w, closed tx (TxEnd.commit output report) none)
      else (w', closed tx (TxEnd.commit output report) (some result))
  end_at (TxEnd.rollback output report) w tx =
      (server.rollback w, closed tx (TxEnd.rollback output report) none)

  -- `Tx::end`
  pub end_tx : F → W → Tx → W × TxState F E
  unfolding end_at
  end_tx state w tx = elim (flow.finished state) [
    | inl state' ↦ (w, go_on tx state')
    | inr e ↦ end_at e w tx
  ]

  -- A step's program, to the state it returns.
  pub run_step : Step F Q X QE → W → Tx → W × TxState F E
  unfolding run_query end_tx
  run_step (with_state state) w tx = (w, go_on tx state)
  run_step (end state) w tx = end_tx state w tx
  run_step (run query next) w tx =
      let (w', (tx', result)) = run_query query w tx in run_step (next result) w' tx'

  pub close : F → Bool → Option (Result E (Unit {0})) → Done C A R E
  close state ab result = elim (flow.finished state) [
    | inl state' ↦ record { output = err TxError.end_mismatch; report = none }
    | inr e ↦
        let (output, final) = close_end server.is_database e ab result in
        record { output = output; report = some final }
  ]

  -- `TxState::into_open`
  pub into_open : TxState F E → (Tx × F) ⊎ Done C A R E
  unfolding close
  into_open s =
      if s.tx
      then inl (record { aborted = s.aborted }, s.state)
      else inr (close s.state s.aborted s.commit)

  -- The body of the loop of `drive`: end the state if it is terminal, else step it.
  pub round : F → W → Tx → W × ((Tx × F) ⊎ Done C A R E)
  unfolding end_tx into_open run_step
  round state w tx =
      let (w1, ended) = end_tx state w tx in
      elim (into_open ended) [
        | inr result ↦ (w1, inr result)
        | inl (tx1, state1) ↦
            let (w2, stepped) = run_step (flow.step state1) w1 tx1 in (w2, into_open stepped)
      ]

  -- Go on with the next round, or return.
  abbrev pub after_round :
      (F → W → Tx → Option (W × Done C A R E))
      → W × ((Tx × F) ⊎ Done C A R E)
      → Option (W × Done C A R E)
  after_round next (w, inr result) = some (w, result)
  after_round next (w, inl (tx, state)) = next state w tx

  pub drive_loop : ℕ → F → W → Tx → Option (W × Done C A R E)
  unfolding round
  drive_loop zero state w tx = none
  drive_loop (suc fuel) state w tx = after_round (drive_loop fuel) (round state w tx)

  unfoldable pub drive : ℕ → F → W → Option (W × Done C A R E)
  unfolding drive_loop
  drive fuel state w =
      let (w', begun) = server.begin w in
      elim begun [
        | err e ↦ some (w', record { output = err (TxError.begin e); report = none })
        | ok u ↦ drive_loop fuel state w' (record { aborted = false })
      ]
