-- ===== src/Entity/Transaction/Examples.antt =====
-- A flow with one step of two queries, after the documentation of wakuwaku-entity/src/sqlx/transaction. The
-- connection is the list of what was sent, newest first; the query 13 fails and aborts the transaction.
use wakuwaku.Base.{
  ℕ, ◌==◌, true, false, List, [], ◌∷◌, none, some, Result, ok, err, ◌≡◌, refl, ◌⊎◌, inl, inr,
  if◌then◌else◌, ◌≤◌, subst, arith,
}
use wakuwaku.Entity.Transaction.{
  TxEnd, TxOutput, TxFinalState, TxError, Done, Server, with_state, end, run, TxFlow, end_at,
  end_tx, run_query, run_step, close, into_open, round, drive_loop, drive,
}
use wakuwaku.Entity.Transaction.Outcome.{EndsAs, end_tx-EndsAs}
use wakuwaku.Entity.Transaction.Aborted.{OnlyRolledBack, run_step-OnlyRolledBack}
use wakuwaku.Entity.Transaction.Driven.{Ended, drive-Ended}
use wakuwaku.Entity.Transaction.Returns.{StepsBelow, Progress, drive_returns}

data Sent : Type 0 where
  begun committed rolled_back : Sent
  queried : ℕ → Sent

abbrev server : Server (List Sent) ℕ ℕ ℕ ℕ
server = record {
  begin = λ w. (begun ∷ w, ok tt);
  commit = λ w. (committed ∷ w, ok tt);
  rollback = λ w. rolled_back ∷ w;
  execute = λ q w. (queried q ∷ w, if q == 13 then err 1 else ok q);
  as_sqlx_error = λ e. some e;
  of_sqlx_error = λ e. e;
  is_database = λ e. e == 1;
  aborts_transaction = λ e. e == 1;
  already_aborted = 7;
}

abbrev End : Type 0
End = TxEnd ℕ ℕ ℕ

data State : Type 0 where
  start : ℕ → State
  finish : End → State

-- Runs the query of the state and then 20, and commits whatever they come to.
abbrev flow : TxFlow State ℕ ℕ ℕ ℕ ℕ ℕ
flow = record {
  from_end = finish;
  finished = λ s. elim s [ start n ↦ inl (start n) | finish e ↦ inr e ];
  step = λ s. elim s [
    | start n ↦ run n (λ r. run 20 (λ r'. end (finish (TxEnd.commit n 0))))
    | finish e ↦ with_state (finish e)
  ];
}

finished_end : (e : End) → flow.finished (flow.from_end e) ≡ inr e
finished_end e = refl

drive-committed :
    drive server flow 2 (start 5) []
    ≡ some (
      committed ∷ queried 20 ∷ queried 5 ∷ begun ∷ [],
      record { output = ok (TxOutput.committed 5); report = some (TxFinalState.committed 0) },
    )
unfolding drive drive_loop round end_tx end_at run_step run_query into_open close
drive-committed = refl

-- The second query is not sent, and neither is `COMMIT`.
drive-aborted :
    drive server flow 2 (start 13) []
    ≡ some (
      rolled_back ∷ queried 13 ∷ begun ∷ [],
      record { output = err TxError.aborted; report = some (TxFinalState.rolled_back 0) },
    )
unfolding drive drive_loop round end_tx end_at run_step run_query into_open close
drive-aborted = refl

end_tx-EndsAs_example :
    (output : Result (TxError ℕ) (TxOutput ℕ ℕ)) × (report : TxFinalState ℕ) × (into_open server
        flow
        (end_tx server flow (finish (TxEnd.commit 5 0)) [] (record { aborted = false })).1
      ≡ inr (record { output = output; report = some report }))
    × EndsAs server flow [] false
        (TxEnd.commit 5 0)
        (end_tx server flow (finish (TxEnd.commit 5 0)) [] (record { aborted = false })).0
        output
        report
end_tx-EndsAs_example =
    end_tx-EndsAs server flow finished_end (finish (TxEnd.commit 5 0)) (TxEnd.commit 5 0) []
      (record { aborted = false }) refl

run_step-OnlyRolledBack_example : OnlyRolledBack server flow (queried 13 ∷ []) (
    run_step server flow
      (run 20 (λ r. end (finish (TxEnd.commit 5 0))))
      (queried 13 ∷ [])
      (record { aborted = true }))
run_step-OnlyRolledBack_example =
    run_step-OnlyRolledBack server flow (run 20 (λ r. end (finish (TxEnd.commit 5 0))))
      (queried 13 ∷ [])

abbrev given_up : Done ℕ ℕ ℕ ℕ
given_up = record { output = err TxError.aborted; report = some (TxFinalState.rolled_back 0) }

drive-Ended_example :
    ((e : ℕ) × ((server.begin []).1 ≡ err e)
      × (given_up ≡ record { output = err (TxError.begin e); report = none }))
    ⊎ Ended server flow (rolled_back ∷ queried 13 ∷ begun ∷ []) given_up
drive-Ended_example =
    drive-Ended server flow finished_end 2 (start 13) [] (rolled_back ∷ queried 13 ∷ begun ∷ [])
      given_up drive-aborted

abbrev measure : State → ℕ
measure (start n) = 1
measure (finish e) = 0

kept_of : (state state' : State) → flow.finished state ≡ inl state' → measure state' ≤ measure state
kept_of (start n) state' q =
    let e : start n ≡ state' = cc q in subst (λ s. measure s ≤ 1) e (omega arith)
kept_of (finish e) state' q = absurd (cc q)

falls_of :
    (state state' : State)
    → flow.finished state ≡ inl state'
    → StepsBelow server flow measure (measure state') (flow.step state')
falls_of (start n) state' q =
    let e : start n ≡ state' = cc q in
    subst (λ s. StepsBelow server flow measure (measure s) (flow.step s)) e (λ r r'. omega arith)
falls_of (finish e) state' q = absurd (cc q)

progress : Progress server flow measure
progress = record { kept = kept_of; falls = falls_of }

drive_returns_example :
    (res : List Sent × Done ℕ ℕ ℕ ℕ) × (drive server flow 2 (start 13) [] ≡ some res)
drive_returns_example = drive_returns server flow measure progress 2 (start 13) [] (omega arith)
