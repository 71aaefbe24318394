-- ===== src/Consumer/Execute/Segments.antt =====
-- What a segment leaves behind, stage by stage (the loop body of `execute_key` in
-- wakuwaku-iggy/src/consumer/execute.rs).
use wakuwaku.Base.{
  ℕ, true, false, List, [], ◌∷◌, ◌++◌, Option, none, some, ◌≡◌, refl, sym, ap, ◌∙◌, ◌⊎◌, inl, inr,
  append-nil, append_assoc, Option-cases, subst,
}
use wakuwaku.Partition.Plan.{Segment, Run, Plan}
use wakuwaku.Partition.Plan.View
use wakuwaku.Partition.Plan.Reading.{to_list, records_of, all_runs}
use wakuwaku.Events.{EventTypeTag}
use wakuwaku.Consumer.Record.{ParsedRecord}
use wakuwaku.Consumer.Handler.{RunRecord, RunResult}
use wakuwaku.Consumer.Execute.{
  Stage, FailedRun, StageOutcome, run_stage, run_body, unless_failed, if_none, run_segment,
}
use wakuwaku.Consumer.Execute.Stages.{
  Settled, Settled-all, AllDone, AllDone-append, Results, Told, has_error, has_failed, Adds,
  Adds-run_stage, Adds-run_body,
}

-- The three stages of a segment.
pub data Kind : Type 0 where
  head body tail : Kind

abbrev pub stage_at : Kind → ℕ → Stage
stage_at Kind.head i = Stage.head
stage_at Kind.body i = Stage.body i
stage_at Kind.tail i = Stage.tail

module _ (plan : Plan) where
  abbrev pub stage_runs : Segment → Kind → List Run
  stage_runs segment Kind.head = to_list (View.head plan segment)
  stage_runs segment Kind.body = View.body plan segment
  stage_runs segment Kind.tail = to_list (View.tail plan segment)

  -- The runs of the stages before one.
  abbrev pub before : Segment → Kind → List Run
  before segment Kind.head = []
  before segment Kind.body = stage_runs segment Kind.head
  before segment Kind.tail = stage_runs segment Kind.head ++ stage_runs segment Kind.body

module _ {Err : Type 0} (plan : Plan) (told : Run → RunResult Err → Type 0) where
  -- Runs that failed in one stage of a segment, and what its key had completed by then.
  abbrev pub StoppedIn : Segment → List ℕ → List ℕ → List FailedRun → Type 0
  StoppedIn segment earlier completed failed_runs =
      (kind : Kind) × (c : List ℕ) × (has_failed failed_runs ≡ true)
      × (completed ≡ earlier ++ (records_of plan (before plan segment kind) ++ c))
      × AllDone plan told (before plan segment kind)
      × Settled plan told (stage_at kind) 0 (stage_runs plan segment kind) c failed_runs

module _ (plan : Plan) where
  records_of-append :
      (xs ys : List Run) → records_of plan (xs ++ ys) ≡ records_of plan xs ++ records_of plan ys
  records_of-append [] ys = refl
  records_of-append (x ∷ xs) ys =
      ap (◌++◌ (View.records plan x)) (records_of-append xs ys)
      ∙ sym (append_assoc (View.records plan x) (records_of plan xs) (records_of plan ys))

no_failed : (fs : List FailedRun) → has_failed fs ≡ false → fs ≡ []
no_failed [] e = refl
no_failed (f ∷ fs) e = absurd (cc e)

module _ {Err : Type 0} (plan : Plan) (told : Run → RunResult Err → Type 0) (segment : Segment)
    (earlier : List ℕ) where
  unfoldable pub Reached : List Run → StageOutcome Err × List ℕ → Type 0
  Reached runs (o, completed) =
      (o.error ≡ none)
      × (o.failed_runs ≡ [])
      × (completed ≡ earlier ++ records_of plan runs)
      × AllDone plan told runs

  unfoldable pub Stopped : StageOutcome Err × List ℕ → Type 0
  Stopped (o, completed) =
      (e : Err) × (o.error ≡ some e) × StoppedIn plan told segment earlier completed o.failed_runs

  after_stage :
      (kind : Kind) (p p' : StageOutcome Err × List ℕ)
      → Reached (before plan segment kind) p
      → Adds plan told (stage_at kind) 0 (stage_runs plan segment kind) p p'
      → Reached (before plan segment kind ++ stage_runs plan segment kind) p' ⊎ Stopped p'
  unfolding Reached Stopped
  after_stage kind (o, completed) (o', completed') (n, nf, q, a) (c, fs, e, f, s, h) =
      let failed_all : o'.failed_runs ≡ fs = f ∙ ap (λ (l : List FailedRun). l ++ fs) nf in
      let kept : has_error o'.error ≡ has_failed o'.failed_runs =
        h (ap has_error n ∙ sym (ap has_failed nf)) in
      let split : completed' ≡ earlier ++ (records_of plan (before plan segment kind) ++ c) =
        e
        ∙ ap (λ (l : List ℕ). l ++ c) q
        ∙ append_assoc earlier (records_of plan (before plan segment kind)) c in
      elim (Option-cases o'.error) [
        | inl e' ↦
            let none_failed : o'.failed_runs ≡ [] =
              no_failed o'.failed_runs (sym kept ∙ ap has_error e') in
            let (c_all, d) =
              Settled-all plan told (stage_at kind) 0 (stage_runs plan segment kind) c fs s
                (sym failed_all ∙ none_failed) in
            inl (
              e',
              none_failed,
              split
                  ∙ ap
                      (λ (l : List ℕ). earlier ++ (records_of plan (before plan segment kind) ++ l))
                      c_all
                  ∙ ap (◌++◌ earlier) (
                      sym (
                        records_of-append plan (before plan segment kind)
                          (stage_runs plan segment kind))),
              AllDone-append plan told (before plan segment kind) (stage_runs plan segment kind) a
                  d,
            )
        | inr (x, e') ↦ inr (
          x,
          e',
          (
            kind,
            c,
            sym kept ∙ ap has_error e',
            split,
            a,
            subst (Settled plan told (stage_at kind) 0 (stage_runs plan segment kind) c)
                (sym failed_all) s,
          ),
        )
      ]

  after_guard :
      {W : Type 0} (kind : Kind)
      (next : W → StageOutcome Err × List ℕ → W × (StageOutcome Err × List ℕ))
      (x : W × (StageOutcome Err × List ℕ))
      → Reached (before plan segment kind) x.1 ⊎ Stopped x.1
      → ((w : W) (p : StageOutcome Err × List ℕ)
          → Adds plan told (stage_at kind) 0 (stage_runs plan segment kind) p (next w p).1)
      → Reached (before plan segment kind ++ stage_runs plan segment kind) (unless_failed next x).1
        ⊎ Stopped (unless_failed next x).1
  unfolding Reached Stopped
  after_guard kind next (w, p) (inl r) adds =
      subst
        (λ x. Reached (before plan segment kind ++ stage_runs plan segment kind) x.1 ⊎ Stopped x.1)
        (sym (ap (λ o. if_none o (next w p) (w, p)) r.0))
        (after_stage kind p (next w p).1 r (adds w p))
  after_guard kind next (w, p) (inr s) adds =
      subst
        (λ x. Reached (before plan segment kind ++ stage_runs plan segment kind) x.1 ⊎ Stopped x.1)
        (sym (ap (λ o. if_none o (next w p) (w, p)) s.1)) (inr s)

module _ {W Err : Type 0} (handle_run : W → EventTypeTag → List RunRecord → W × RunResult Err)
    (join_all : List (W → W × RunResult Err) → W → W × List (RunResult Err))
    (in_order : (futures : List (W → W × RunResult Err)) (w : W)
      → Results futures (join_all futures w).1)
    (plan : Plan) (parsed : List ParsedRecord) where
  pub segment_outcome :
      (segment : Segment) (w : W) (completed : List ℕ)
      → let p = (run_segment handle_run join_all plan parsed segment w completed).1 in
        Reached plan (Told handle_run plan parsed) segment completed (all_runs plan segment) p
        ⊎ Stopped plan (Told handle_run plan parsed) segment completed p
  unfolding run_segment Reached
  segment_outcome segment w completed =
      let outcome : StageOutcome Err = record { error = none; failed_runs = [] } in
      let stage : Stage
          → Option Run
          → W
          → StageOutcome Err × List ℕ
          → W × (StageOutcome Err × List ℕ) =
        run_stage handle_run join_all plan parsed in
      let after_head = stage Stage.head (View.head plan segment) w (outcome, completed) in
      let bodies = run_body handle_run join_all plan parsed (View.body plan segment) in
      after_guard plan (Told handle_run plan parsed) segment completed Kind.tail
        (stage Stage.tail (View.tail plan segment)) (unless_failed bodies after_head)
        (after_guard plan (Told handle_run plan parsed) segment completed Kind.body bodies
          after_head
          (after_stage plan (Told handle_run plan parsed) segment completed Kind.head
            (outcome, completed) after_head.1 (refl, refl, sym (append-nil completed), tt)
            (Adds-run_stage handle_run join_all in_order plan parsed Stage.head
              (View.head plan segment) w (outcome, completed)))
          (Adds-run_body handle_run join_all in_order plan parsed (View.body plan segment)))
        (Adds-run_stage handle_run join_all in_order plan parsed Stage.tail
          (View.tail plan segment))
