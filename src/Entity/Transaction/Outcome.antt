-- ===== src/Entity/Transaction/Outcome.antt =====
-- How `Tx::end` ends a transaction (wakuwaku-entity/src/sqlx/transaction/flow.rs).
use wakuwaku.Base.{
  Bool, true, false, Option, some, Result, ok, err, ◌≡◌, refl, sym, ap, ◌∙◌, subst, inl, inr,
  if◌then◌else◌,
}
use wakuwaku.Entity.Transaction.{
  TxEnd, TxOutput, TxFinalState, TxError, Tx, TxState, Done, Server, TxFlow, close_end, go_on,
  end_at, end_tx, close, into_open,
}

module _ {W F C A R E Q X QE : Type 0} (server : Server W E Q X QE)
    (flow : TxFlow F C A R Q X QE) where
  -- What an end comes to: the connection's state, the caller's output and the hook's report.
  pub data EndsAs (w : W) (aborted : Bool)
      : TxEnd C A R → W → Result (TxError E) (TxOutput C A) → TxFinalState R → Type 0 where
    commits :
        (output : C) (report : R) (u : Unit {0})
        → aborted ≡ false
        → (server.commit w).1 ≡ ok u
        → EndsAs w aborted
            (TxEnd.commit output report)
            (server.commit w).0
            (ok (TxOutput.committed output))
            (TxFinalState.committed report)
    rejected :
        (output : C) (report : R) (e : E)
        → aborted ≡ false
        → (server.commit w).1 ≡ err e
        → server.is_database e ≡ true
        → EndsAs w aborted
            (TxEnd.commit output report)
            (server.commit w).0
            (err (TxError.commit_rejected e))
            (TxFinalState.rolled_back report)
    unknown :
        (output : C) (report : R) (e : E)
        → aborted ≡ false
        → (server.commit w).1 ≡ err e
        → server.is_database e ≡ false
        → EndsAs w aborted
            (TxEnd.commit output report)
            (server.commit w).0
            (err (TxError.commit_unknown e))
            (TxFinalState.commit_unknown report)
    gave_way :
        (output : C) (report : R)
        → aborted ≡ true
        → EndsAs w aborted
            (TxEnd.commit output report)
            (server.rollback w)
            (err TxError.aborted)
            (TxFinalState.rolled_back report)
    rolls_back :
        (output : A) (report : R)
        → EndsAs w aborted
            (TxEnd.rollback output report)
            (server.rollback w)
            (ok (TxOutput.rolled_back output))
            (TxFinalState.rolled_back report)

  -- A closed transaction whose end is `e`.
  pub done_of : TxEnd C A R → Bool → Option (Result E (Unit {0})) → Done C A R E
  done_of e ab result =
      let (output, final) = close_end server.is_database e ab result in
      record { output = output; report = some final }

  close-from_end :
      (finished_end : (e : TxEnd C A R) → flow.finished (flow.from_end e) ≡ inr e) (e : TxEnd C A R)
      (ab : Bool) (result : Option (Result E (Unit {0})))
      → close server flow (flow.from_end e) ab result ≡ done_of e ab result
  unfolding close done_of
  close-from_end finished_end e ab result = rw (close, finished_end e) refl

  -- The closed state `s`, its outcome, and how it came about.
  abbrev pub ClosedAs : TxEnd C A R → W → Bool → W × TxState F E → Type 0
  ClosedAs e w ab (w', s) =
      (s.tx ≡ false)
      × (s.state ≡ flow.from_end e)
      × (output : Result (TxError E) (TxOutput C A)) × (report : TxFinalState R) × (done_of e
            s.aborted s.commit
          ≡ record { output = output; report = some report })
      × EndsAs w ab e w' output report

  commit_error :
      (o : C) (r : R) (w : W) (e : E) (b : Bool)
      → (server.commit w).1 ≡ err e
      → server.is_database e ≡ b
      → ClosedAs
          (TxEnd.commit o r)
          w
          false
          (end_at server flow (TxEnd.commit o r) w (record { aborted = false }))
  unfolding end_at done_of
  commit_error o r w e true q d = (
    refl,
    refl,
    err (TxError.commit_rejected e),
    TxFinalState.rolled_back r,
    ap (λ x. done_of (TxEnd.commit o r) false (some x)) q ∙ rw d refl,
    rejected o r e refl q d,
  )
  commit_error o r w e false q d = (
    refl,
    refl,
    err (TxError.commit_unknown e),
    TxFinalState.commit_unknown r,
    ap (λ x. done_of (TxEnd.commit o r) false (some x)) q ∙ rw d refl,
    unknown o r e refl q d,
  )

  commit_result :
      (o : C) (r : R) (w : W) (result : Result E (Unit {0}))
      → (server.commit w).1 ≡ result
      → ClosedAs
          (TxEnd.commit o r)
          w
          false
          (end_at server flow (TxEnd.commit o r) w (record { aborted = false }))
  unfolding end_at done_of
  commit_result o r w (ok u) q = (
    refl,
    refl,
    ok (TxOutput.committed o),
    TxFinalState.committed r,
    ap (λ x. done_of (TxEnd.commit o r) false (some x)) q,
    commits o r u refl q,
  )
  commit_result o r w (err e) q = commit_error o r w e (server.is_database e) q refl

  end_at-ClosedAs :
      (e : TxEnd C A R) (w : W) (ab : Bool)
      → ClosedAs e w ab (end_at server flow e w (record { aborted = ab }))
  unfolding end_at done_of
  end_at-ClosedAs (TxEnd.commit o r) w false = commit_result o r w (server.commit w).1 refl
  end_at-ClosedAs (TxEnd.commit o r) w true =
      (refl, refl, err TxError.aborted, TxFinalState.rolled_back r, refl, gave_way o r refl)
  end_at-ClosedAs (TxEnd.rollback o r) w ab =
      (refl, refl, ok (TxOutput.rolled_back o), TxFinalState.rolled_back r, refl, rolls_back o r)

  -- Ending a terminal state, whose projection is the inverse of `From<TxEnd>`, closes the transaction:
  -- a rollback, and a commit of an aborted transaction, by `ROLLBACK`; any other commit by `COMMIT`,
  -- whose result says whether it is committed, rejected or unknown. Caller and hook are told.
  pub end_tx-EndsAs :
      (finished_end : (e : TxEnd C A R) → flow.finished (flow.from_end e) ≡ inr e) (state : F)
      (e : TxEnd C A R) (w : W) (tx : Tx)
      → flow.finished state ≡ inr e
      → (output : Result (TxError E) (TxOutput C A)) × (report : TxFinalState R) × (into_open server
            flow
            (end_tx server flow state w tx).1
          ≡ inr (record { output = output; report = some report }))
        × EndsAs w tx.aborted e (end_tx server flow state w tx).0 output report
  unfolding end_tx into_open
  end_tx-EndsAs finished_end state e w tx q =
      let (shut, same, output, report, d, ends) = end_at-ClosedAs e w tx.aborted in
      let s : TxState F E = (end_at server flow e w tx).1 in
      let ended : end_tx server flow state w tx ≡ end_at server flow e w tx = rw (end_tx, q) refl in
      (
        output,
        report,
        ap (λ x. into_open server flow x.1) ended
            ∙ ap
                (λ b.
                  if b
                  then inl (record { aborted = s.aborted }, s.state)
                  else inr (close server flow s.state s.aborted s.commit))
                shut
            ∙ ap inr (
                ap (λ x. close server flow x s.aborted s.commit) same
                ∙ close-from_end finished_end e s.aborted s.commit
                ∙ d),
        subst (λ x. EndsAs w tx.aborted e x.0 output report) (sym ended) ends,
      )

  -- A state that is not terminal goes on.
  pub end_tx_open :
      (state state' : F) (w : W) (tx : Tx)
      → flow.finished state ≡ inl state'
      → end_tx server flow state w tx ≡ (w, go_on server flow tx state')
  unfolding end_tx
  end_tx_open state state' w tx q = rw (end_tx, q) refl
