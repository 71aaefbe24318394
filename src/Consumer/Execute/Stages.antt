-- ===== src/Consumer/Execute/Stages.antt =====
-- What the stages of a segment leave behind (`settle` and the loop body of `execute_key` in
-- wakuwaku-iggy/src/consumer/execute.rs).
use wakuwaku.Base.{
  ℕ, suc, Bool, true, false, List, [], ◌∷◌, ◌++◌, Option, none, some, ◌≡◌, refl, sym, ap, ◌∙◌, map,
  append-nil, append_assoc,
}
use wakuwaku.Partition.Plan.{Run, Plan}
use wakuwaku.Partition.Plan.View
use wakuwaku.Partition.Plan.Reading.{to_list, records_of}
use wakuwaku.Events.{EventTypeTag}
use wakuwaku.Consumer.Record.{ParsedRecord}
use wakuwaku.Consumer.Handler.{RunRecord, RunResult, done, failed}
use wakuwaku.Consumer.Execute.{
  Stage, FailedRun, StageOutcome, settle, settle_body, run_one, run_records, run_stage, run_body,
  first_error,
}

module _ {Err : Type 0} (plan : Plan) (told : Run → RunResult Err → Type 0) where
  -- Each run of a stage is either completed or failed: the records of the completed runs, and the
  -- failed runs in order. `stage i` is the position of the run `i` in the segment. A run is completed where the
  -- handler told that it is done, and failed where it told so, with the remainder that it told.
  pub data Settled (stage : ℕ → Stage) : ℕ → List Run → List ℕ → List FailedRun → Type 0 where
    nothing : (i : ℕ) → Settled stage i [] [] []
    completes :
        (i : ℕ) (run : Run) (runs : List Run) (c : List ℕ) (fs : List FailedRun)
        → told run done
        → Settled stage (suc i) runs c fs
        → Settled stage i (run ∷ runs) (View.records plan run ++ c) fs
    fails :
        (i : ℕ) (run : Run) (error : Err) (remainder : List (List ℕ)) (runs : List Run) (c : List ℕ)
        (fs : List FailedRun)
        → told run (failed error remainder)
        → Settled stage (suc i) runs c fs
        → Settled stage i (run ∷ runs) c (
            record { stage = stage i; records = View.records plan run; remainder = remainder } ∷ fs)

  -- The handler told of each run that it is done.
  abbrev pub AllDone : List Run → Type 0
  AllDone [] = Unit {0}
  AllDone (run ∷ runs) = told run done × AllDone runs

  pub AllDone-append : (xs ys : List Run) → AllDone xs → AllDone ys → AllDone (xs ++ ys)
  AllDone-append [] ys a b = b
  AllDone-append (x ∷ xs) ys (t, a) b = (t, AllDone-append xs ys a b)

  -- A stage without a failed run has completed all its records.
  pub Settled-all :
      (stage : ℕ → Stage) (i : ℕ) (runs : List Run) (c : List ℕ) (fs : List FailedRun)
      → Settled stage i runs c fs
      → fs ≡ []
      → (c ≡ records_of plan runs) × AllDone runs
  Settled-all stage _ _ _ _ (nothing i) e = (refl, tt)
  Settled-all stage _ _ _ _ (completes i run runs c fs t s) e =
      let (q, a) = Settled-all stage (suc i) runs c fs s e in
      (ap (◌++◌ (View.records plan run)) q, (t, a))
  Settled-all stage _ _ _ _ (fails i run error remainder runs c fs t s) e = absurd (cc e)

abbrev pub has_error : {Err : Type 0} → Option Err → Bool
has_error none = false
has_error (some e) = true

abbrev pub has_failed : List FailedRun → Bool
has_failed [] = false
has_failed (f ∷ fs) = true

-- An error is kept exactly if a run has failed.
abbrev pub Consistent : {Err : Type 0} → StageOutcome Err → Type 0
Consistent outcome = has_error outcome.error ≡ has_failed outcome.failed_runs

-- What a stage adds to what was there.
abbrev pub Adds :
    {Err : Type 0}
    → Plan
    → (Run → RunResult Err → Type 0)
    → (ℕ → Stage)
    → ℕ
    → List Run
    → StageOutcome Err × List ℕ
    → StageOutcome Err × List ℕ
    → Type 0
Adds plan told stage i runs (o, completed) (o', completed') =
    (c : List ℕ) × (fs : List FailedRun) × (completed' ≡ completed ++ c)
    × (o'.failed_runs ≡ o.failed_runs ++ fs)
    × Settled plan told stage i runs c fs
    × (Consistent o → Consistent o')

Adds-nil :
    {Err : Type 0} (plan : Plan) (told : Run → RunResult Err → Type 0) (stage : ℕ → Stage) (i : ℕ)
    (p : StageOutcome Err × List ℕ)
    → Adds plan told stage i [] p p
Adds-nil plan told stage i (o, completed) =
    ([], [], sym (append-nil completed), sym (append-nil o.failed_runs), nothing i, λ h. h)

has_failed-append : (fs : List FailedRun) (f : FailedRun) → has_failed (fs ++ f ∷ []) ≡ true
has_failed-append [] f = refl
has_failed-append (g ∷ fs) f = refl

has_error-first_error :
    {Err : Type 0} (o : Option Err) (e : Err) → has_error (first_error o e) ≡ true
has_error-first_error none e = refl
has_error-first_error (some d) e = refl

-- A run is settled before the others of its stage.
Adds-settle :
    {Err : Type 0} (plan : Plan) (told : Run → RunResult Err → Type 0) (stage : ℕ → Stage) (i : ℕ)
    (run : Run) (runs : List Run) (result : RunResult Err) (p p' : StageOutcome Err × List ℕ)
    → told run result
    → Adds plan told stage (suc i) runs (settle plan (stage i) run result p) p'
    → Adds plan told stage i (run ∷ runs) p p'
unfolding settle
Adds-settle plan told stage i run runs done (o, completed) (o', completed') t (c, fs, e, f, s, h) =
    (
      View.records plan run ++ c,
      fs,
      e ∙ append_assoc completed (View.records plan run) c,
      f,
      completes i run runs c fs t s,
      h,
    )
Adds-settle plan told stage i run runs (failed error remainder) (o, completed) (o', completed') t
      (c, fs, e, f, s, h) =
    let failed_run : FailedRun = record {
      stage = stage i;
      records = View.records plan run;
      remainder = remainder;
    } in
    (
      c,
      failed_run ∷ fs,
      e,
      f ∙ append_assoc o.failed_runs (failed_run ∷ []) fs,
      fails i run error remainder runs c fs t s,
      λ k.
          h (
            has_error-first_error o.error error ∙ sym (has_failed-append o.failed_runs failed_run)),
    )

-- Each run has its own result.
abbrev pub AllTold :
    {Err : Type 0} → (Run → RunResult Err → Type 0) → List Run → List (RunResult Err) → Type 0
AllTold told [] results = Unit {0}
AllTold told (run ∷ runs) [] = ⊥
AllTold told (run ∷ runs) (result ∷ results) = told run result × AllTold told runs results

Adds-settle_body :
    {Err : Type 0} (plan : Plan) (told : Run → RunResult Err → Type 0) (i : ℕ) (runs : List Run)
    (results : List (RunResult Err)) (p : StageOutcome Err × List ℕ)
    → AllTold told runs results
    → Adds plan told Stage.body i runs p (settle_body plan i runs results p)
unfolding settle_body
Adds-settle_body plan told i [] results p l = Adds-nil plan told Stage.body i p
Adds-settle_body plan told i (run ∷ runs) [] p l = absurd l
Adds-settle_body plan told i (run ∷ runs) (result ∷ results) p (t, l) =
    Adds-settle plan told Stage.body i run runs result p _ t
      (Adds-settle_body plan told (suc i) runs results (settle plan (Stage.body i) run result p) l)

-- Each result is what its future makes of some world.
abbrev pub Results : {W B : Type 0} → List (W → W × B) → List B → Type 0
Results [] [] = Unit {0}
Results [] (b ∷ results) = ⊥
Results (f ∷ futures) [] = ⊥
Results {W} (f ∷ futures) (b ∷ results) = ((w : W) × ((f w).1 ≡ b)) × Results futures results

-- The handler told this of the records of the run, in some state of the world.
abbrev pub Told :
    {W Err : Type 0}
    → (W → EventTypeTag → List RunRecord → W × RunResult Err)
    → Plan
    → List ParsedRecord
    → Run
    → RunResult Err
    → Type 0
Told {W} handle_run plan parsed run result =
    (w : W) × ((handle_run w run.tag (run_records plan parsed run)).1 ≡ result)

module _ {W Err : Type 0} (handle_run : W → EventTypeTag → List RunRecord → W × RunResult Err)
    (join_all : List (W → W × RunResult Err) → W → W × List (RunResult Err))
    (in_order : (futures : List (W → W × RunResult Err)) (w : W)
      → Results futures (join_all futures w).1)
    (plan : Plan) (parsed : List ParsedRecord) where
  AllTold-Results :
      (runs : List Run) (results : List (RunResult Err))
      → Results (map (run_one handle_run join_all plan parsed) runs) results
      → AllTold (Told handle_run plan parsed) runs results
  unfolding run_one
  AllTold-Results [] results r = tt
  AllTold-Results (run ∷ runs) [] r = absurd r
  AllTold-Results (run ∷ runs) (result ∷ results) (t, r) = (t, AllTold-Results runs results r)

  pub Adds-run_stage :
      (stage : Stage) (run : Option Run) (w : W) (p : StageOutcome Err × List ℕ)
      → Adds plan
          (Told handle_run plan parsed)
          (λ i. stage)
          0
          (to_list run)
          p
          (run_stage handle_run join_all plan parsed stage run w p).1
  unfolding run_stage run_one
  Adds-run_stage stage none w p = Adds-nil plan (Told handle_run plan parsed) (λ i. stage) 0 p
  Adds-run_stage stage (some run) w p =
      Adds-settle plan (Told handle_run plan parsed) (λ i. stage) 0 run []
        (run_one handle_run join_all plan parsed run w).1 p _ (w, refl)
        (Adds-nil plan (Told handle_run plan parsed) (λ i. stage) 1 _)

  pub Adds-run_body :
      (runs : List Run) (w : W) (p : StageOutcome Err × List ℕ)
      → Adds plan
          (Told handle_run plan parsed)
          Stage.body
          0
          runs
          p
          (run_body handle_run join_all plan parsed runs w p).1
  unfolding run_body
  Adds-run_body runs w p =
      Adds-settle_body plan (Told handle_run plan parsed) 0 runs _ p
        (AllTold-Results runs _ (in_order (map (run_one handle_run join_all plan parsed) runs) w))
