-- ===== src/Consumer/Execute/Report.antt =====
-- What the report of `execute_key` (wakuwaku-iggy/src/consumer/execute.rs) says of the records of a key.
use wakuwaku.Base.{
  ℕ, zero, suc, ◌+◌, List, [], ◌∷◌, ◌++◌, Option, none, some, ◌≡◌, refl, sym, ◌∙◌, inl, inr, take,
  get_elem?, append-nil, append_assoc, subst, arith,
}
use wakuwaku.Partition.Plan.{KeyPlan, Segment, Run, Plan}
use wakuwaku.Partition.Plan.View
use wakuwaku.Partition.Plan.Reading.{all_runs, records_of, segments_records}
use wakuwaku.Events.{EventTypeTag}
use wakuwaku.Consumer.Record.{ParsedRecord}
use wakuwaku.Consumer.Handler.{RunRecord, RunResult}
use wakuwaku.Consumer.Execute.{KeyFailure, run_segment, execute_from, execute_key}
use wakuwaku.Consumer.Execute.Segments.{StoppedIn, Reached, Stopped, segment_outcome}
use wakuwaku.Consumer.Execute.Stages.{AllDone, Results, Told}

module _ {Err : Type 0} (plan : Plan) (told : Run → RunResult Err → Type 0) where
  -- The handler told of each run of the segments that it is done.
  abbrev pub SegmentsDone : List Segment → Type 0
  SegmentsDone [] = Unit {0}
  SegmentsDone (segment ∷ segs) = AllDone plan told (all_runs plan segment) × SegmentsDone segs

  -- A key without a failure has completed all its records. A failed key has completed those of the
  -- segments before the failed one, and in it those of the stages before the failed stage.
  abbrev pub Accounts : List Segment → List ℕ → Option (KeyFailure Err) → Type 0
  Accounts segs completed none = (completed ≡ segments_records plan segs) × SegmentsDone segs
  Accounts segs completed (some failure) =
      (segment : Segment) × (get_elem? segs failure.segment ≡ some segment)
      × SegmentsDone (take failure.segment segs)
      × StoppedIn plan told segment (segments_records plan (take failure.segment segs)) completed
          failure.failed_runs

module _ {W Err : Type 0} (handle_run : W → EventTypeTag → List RunRecord → W × RunResult Err)
    (join_all : List (W → W × RunResult Err) → W → W × List (RunResult Err))
    (in_order : (futures : List (W → W × RunResult Err)) (w : W)
      → Results futures (join_all futures w).1)
    (plan : Plan) (parsed : List ParsedRecord) where
  abbrev Answers : Run → RunResult Err → Type 0
  Answers = Told handle_run plan parsed

  -- The report of the segments from `index` on, with `earlier` completed before them.
  From : ℕ → List Segment → List ℕ → List ℕ → Option (KeyFailure Err) → Type 0
  From index segs earlier completed none =
      (completed ≡ earlier ++ segments_records plan segs) × SegmentsDone plan Answers segs
  From index segs earlier completed (some failure) =
      (i : ℕ) × (segment : Segment) × (failure.segment ≡ index + i)
      × (get_elem? segs i ≡ some segment)
      × SegmentsDone plan Answers (take i segs)
      × StoppedIn plan Answers segment (earlier ++ segments_records plan (take i segs)) completed
          failure.failed_runs

  From-later :
      (index : ℕ) (segment : Segment) (rest : List Segment) (earlier completed : List ℕ)
      (failure : Option (KeyFailure Err))
      → AllDone plan Answers (all_runs plan segment)
      → From (suc index) rest (earlier ++ records_of plan (all_runs plan segment)) completed failure
      → From index (segment ∷ rest) earlier completed failure
  unfolding From
  From-later index segment rest earlier completed none a (e, d) = (
    e ∙ append_assoc earlier (records_of plan (all_runs plan segment)) (segments_records plan rest),
    (a, d),
  )
  From-later index segment rest earlier completed (some failure) a (i, seg, f, g, d, s) = (
    suc i,
    seg,
    f ∙ omega arith,
    g,
    (a, d),
    subst (λ l. StoppedIn plan Answers seg l completed failure.failed_runs)
        (append_assoc earlier (records_of plan (all_runs plan segment))
          (segments_records plan (take i rest)))
        s,
  )

  execute_next :
      (index : ℕ) (segment : Segment) (rest : List Segment) (w : W) (completed : List ℕ)
      → let (w', (outcome, completed')) =
          run_segment handle_run join_all plan parsed segment w completed in
        outcome.error ≡ none
        → execute_from handle_run join_all plan parsed index (segment ∷ rest) w completed
          ≡ execute_from handle_run join_all plan parsed (suc index) rest w' completed'
  unfolding execute_from
  execute_next index segment rest w completed e = rw (execute_from, e) refl

  execute_stop :
      (index : ℕ) (segment : Segment) (rest : List Segment) (w : W) (completed : List ℕ) (x : Err)
      → let (w', (outcome, completed')) =
          run_segment handle_run join_all plan parsed segment w completed in
        outcome.error ≡ some x
        → execute_from handle_run join_all plan parsed index (segment ∷ rest) w completed ≡ (
          w',
          record {
            completed = completed';
            failure =
                some (record { segment = index; error = x; failed_runs = outcome.failed_runs });
          },
        )
  unfolding execute_from
  execute_stop index segment rest w completed x e = rw (execute_from, e) refl

  execute_from-From :
      (index : ℕ) (segs : List Segment) (w : W) (completed : List ℕ)
      → let report = (execute_from handle_run join_all plan parsed index segs w completed).1 in
        From index segs completed report.completed report.failure
  unfolding execute_from From Reached Stopped
  execute_from-From index [] w completed = (sym (append-nil completed), tt)
  execute_from-From index (segment ∷ rest) w completed =
      let (w', (outcome, completed')) =
        run_segment handle_run join_all plan parsed segment w completed in
      let later = (execute_from handle_run join_all plan parsed (suc index) rest w' completed').1 in
      elim (segment_outcome handle_run join_all in_order plan parsed segment w completed) [
        | inl (n, nf, q, a) ↦
            subst (λ r. From index (segment ∷ rest) completed r.1.completed r.1.failure)
              (sym (execute_next index segment rest w completed n))
              (From-later index segment rest completed later.completed later.failure a (
                subst (λ l. From (suc index) rest l later.completed later.failure) q
                  (execute_from-From (suc index) rest w' completed')))
        | inr (x, e, s) ↦
            subst (λ r. From index (segment ∷ rest) completed r.1.completed r.1.failure)
              (sym (execute_stop index segment rest w completed x e))
              (
                zero,
                segment,
                omega arith,
                refl,
                tt,
                subst (λ l. StoppedIn plan Answers segment l completed' outcome.failed_runs)
                    (sym (append-nil completed)) s,
              )
      ]

  From-Accounts :
      (segs : List Segment) (completed : List ℕ) (failure : Option (KeyFailure Err))
      → From 0 segs [] completed failure
      → Accounts plan Answers segs completed failure
  unfolding From
  From-Accounts segs completed none e = e
  From-Accounts segs completed (some failure) (i, segment, f, g, d, s) =
      let same : i ≡ failure.segment = omega arith in
      (
        segment,
        subst (λ j. get_elem? segs j ≡ some segment) same g,
        subst (λ j. SegmentsDone plan Answers (take j segs)) same d,
        subst
            (λ j.
              StoppedIn plan Answers segment (segments_records plan (take j segs)) completed
                failure.failed_runs)
            same s,
      )

  -- The report of a key accounts for its records, if each result of `join_all` is one of its own future. Without
  -- a failure the handler told of every run of the key that it is done, and every record of the key is
  -- completed, in the order of the plan. With one, exactly these are completed: the records of the
  -- segments before the failed one, of the stages before the failed one, and of those runs of the failed
  -- stage of which the handler told that they are done, as it did of all runs before that stage. The
  -- runs of that stage of which the handler told that they failed are in the report, each with its
  -- records and the remainder that the handler told, at least one.
  pub execute_key-Accounts :
      (key : KeyPlan) (w : W)
      → let report = (execute_key handle_run join_all plan parsed key w).1 in
        Accounts plan Answers (View.segments plan key) report.completed report.failure
  unfolding execute_key
  execute_key-Accounts key w =
      From-Accounts (View.segments plan key) _ _ (execute_from-From 0 (View.segments plan key) w [])
