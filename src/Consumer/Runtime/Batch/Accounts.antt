-- ===== src/Consumer/Runtime/Batch/Accounts.antt =====
-- What becomes of each key of a batch (`process_main` of wakuwaku-iggy/src/consumer/runtime.rs).
use wakuwaku.Base.{
  ℕ, ◌≡◌, ◌≤◌, ◌<◌, refl, subst, List, [], ◌∷◌, ◌++◌, Option, none, some, Bool, true, false, map,
  length, ltb, arith, Bool-cases, inl, inr, length-map,
}
use wakuwaku.Partition.Plan.{KeyPlan, Run, Plan}
use wakuwaku.Partition.Plan.View
use wakuwaku.Consumer.Record.{ParsedRecord, plan_records}
use wakuwaku.Consumer.Handler.{RunResult}
use wakuwaku.Consumer.Retry.{RetryState, is_quarantined}
use wakuwaku.Consumer.Execute.{KeyReport, KeyFailure}
use wakuwaku.Consumer.Execute.Stages.{Results, Told}
use wakuwaku.Consumer.Execute.Report.{Accounts, execute_key-Accounts}
use wakuwaku.Consumer.Encode.{RetryEntry}
use wakuwaku.Consumer.Runtime.{Handlers, ConsumerConfig}
use wakuwaku.Consumer.Runtime.Batch.{
  active, execute, encode, encode_all, backlog, after_report, collect, run_keys,
}

module _ {W Err : Type 0} (handlers : Handlers W Err)
    (in_order : (B : Type 0) (futures : List (W → W × B)) (w : W)
      → Results futures (handlers.join_all futures w).1)
    (config : ConsumerConfig) (state : RetryState) (plan : Plan) (records : List ParsedRecord) where
  -- The report of a key that is executed.
  abbrev pub report : KeyPlan → W → KeyReport Err
  report key w = (execute handlers config state plan records key w).1

  -- The unfinished work of that report.
  abbrev pub work : KeyPlan → W → List RetryEntry
  work key w = encode handlers config state plan records key (report key w)

  -- The records that would wait in retry with it.
  abbrev pub waiting : List RetryEntry → KeyPlan → W → ℕ
  waiting before key w = backlog handlers config state plan records before (work key w)

  abbrev pub Answers : Run → RunResult Err → Type 0
  Answers = Told handlers.handle_run plan records

  -- What becomes of a key, from the entries before it to those after it.
  pub data KeyEnd (key : KeyPlan) (before after : List RetryEntry) : Type 0 where
    -- The key is in retry: all its work goes there too.
    diverted :
        is_quarantined state key.key ≡ true
        → after ≡ before ++ encode_all handlers config state plan records key
        → KeyEnd key before after
    -- The key is executed without a failure, and all its records are completed.
    completed :
        is_quarantined state key.key ≡ false
        → (w : W) → (report key w).failure ≡ none
        → Accounts plan Answers (View.segments plan key) (report key w).completed none
        → after ≡ before
        → KeyEnd key before after
    -- The key fails, its report accounts for its records, and the unfinished work of that report goes to
    -- retry unless too many records would wait there.
    gave_up :
        is_quarantined state key.key ≡ false
        → (w : W) (failure : KeyFailure Err) → (report key w).failure ≡ some failure
        → Accounts plan Answers (View.segments plan key) (report key w).completed (some failure)
        → config.max_pending_retry < waiting before key w
        → after ≡ before
        → KeyEnd key before after
    to_retry :
        is_quarantined state key.key ≡ false
        → (w : W) (failure : KeyFailure Err) → (report key w).failure ≡ some failure
        → Accounts plan Answers (View.segments plan key) (report key w).completed (some failure)
        → waiting before key w ≤ config.max_pending_retry
        → after ≡ before ++ work key w
        → KeyEnd key before after

  -- The keys one after another.
  abbrev pub Ends : List KeyPlan → List RetryEntry → List RetryEntry → Type 0
  Ends [] before after = before ≡ after
  Ends (key ∷ keys) before after =
      (mid : List RetryEntry) × KeyEnd key before mid × Ends keys mid after

  key-Accounts :
      (key : KeyPlan) (w : W)
      → Accounts plan Answers
          (View.segments plan key)
          (report key w).completed
          (report key w).failure
  unfolding execute
  key-Accounts key w =
      execute_key-Accounts handlers.handle_run handlers.join_all (in_order (RunResult Err)) plan
        records key w

  executed-KeyEnd :
      (key : KeyPlan) (w : W) (before : List RetryEntry)
      → is_quarantined state key.key ≡ false
      → (o : Option (KeyFailure Err)) → (report key w).failure ≡ o
      → KeyEnd key before
          (after_report handlers config state plan records key (some (report key w)) before)
  unfolding after_report
  executed-KeyEnd key w before q none e =
      completed q w e
        (subst (Accounts plan Answers (View.segments plan key) (report key w).completed) e
          (key-Accounts key w))
        (rw (after_report, e) refl)
  executed-KeyEnd key w before q (some failure) e =
      let a =
        subst (Accounts plan Answers (View.segments plan key) (report key w).completed) e
          (key-Accounts key w) in
      elim (Bool-cases (ltb config.max_pending_retry (waiting before key w))) [
        | inl l ↦ gave_up q w failure e a (ground (arith, l)) (ground (arith, e, l))
        | inr l ↦ to_retry q w failure e a (ground (arith, l)) (ground (arith, e, l))
      ]

  -- Reports of keys that are executed, in the order of the keys.
  abbrev Reported : List KeyPlan → List Bool → List (KeyReport Err) → Type 0
  Reported keys quarantined reports =
      Results (map (execute handlers config state plan records) (active keys quarantined)) reports

  abbrev flags : List KeyPlan → List Bool
  flags keys = map (λ (k : KeyPlan). is_quarantined state k.key) keys

  key-Ends :
      (key : KeyPlan) (keys : List KeyPlan) (entries : List RetryEntry)
      → ((reports : List (KeyReport Err)) (entries : List RetryEntry)
          → Reported keys (flags keys) reports
          → Ends keys entries
              (collect handlers config state plan records keys (flags keys) reports entries))
      → (q : Bool) → is_quarantined state key.key ≡ q
      → (reports : List (KeyReport Err)) → Reported (key ∷ keys) (q ∷ flags keys) reports
      → Ends
          (key ∷ keys)
          entries
          (collect handlers config state plan records (key ∷ keys) (q ∷ flags keys) reports entries)
  unfolding active collect
  key-Ends key keys entries again true e reports r = (_, diverted e refl, again reports _ r)
  key-Ends key keys entries again false e [] r = absurd r
  key-Ends key keys entries again false e (b ∷ reports) ((w, f), r) = (
    after_report handlers config state plan records key (some b) entries,
    subst
        (λ (x : KeyReport Err).
          KeyEnd key entries (after_report handlers config state plan records key (some x) entries))
        f (executed-KeyEnd key w entries e (report key w).failure refl),
    again reports (after_report handlers config state plan records key (some b) entries) r,
  )

  collect-Ends :
      (keys : List KeyPlan) (reports : List (KeyReport Err)) (entries : List RetryEntry)
      → Reported keys (flags keys) reports
      → Ends keys entries
          (collect handlers config state plan records keys (flags keys) reports entries)
  unfolding collect
  collect-Ends [] reports entries r = refl
  collect-Ends (key ∷ keys) reports entries r =
      key-Ends key keys entries (collect-Ends keys) (is_quarantined state key.key) refl reports r

  pub run_keys-Ends :
      (keys : List KeyPlan) (w : W)
      → Ends keys [] (run_keys handlers config state plan records keys w).1
  unfolding run_keys
  run_keys-Ends keys w = collect-Ends keys _ [] (in_order _ _ w)

pub length-plan_records :
    (records : List ParsedRecord) → length (plan_records records) ≡ length records
unfolding plan_records
length-plan_records records = length-map _ records
