-- ===== src/Consumer/Execute/Keeps.antt =====
-- What the handlers keep of the world, executing a key keeps (wakuwaku-iggy/src/consumer/execute.rs).
use wakuwaku.Base.{ℕ, suc, List, [], ◌∷◌, Option, none, some, map, Option-cases, inl, inr}
use wakuwaku.Events.{EventTypeTag}
use wakuwaku.Partition.Plan.{KeyPlan, Segment, Run, Plan}
use wakuwaku.Partition.Plan.View
use wakuwaku.Consumer.Record.{ParsedRecord}
use wakuwaku.Consumer.Handler.{RunRecord, RunResult}
use wakuwaku.Consumer.Execute.{
  Stage, StageOutcome, run_one, run_stage, run_body, run_segment, unless_failed, execute_from,
  execute_key,
}

-- Each of the futures keeps what holds of the world.
abbrev pub AllKeep : {W B : Type 0} → (W → Type 0) → List (W → W × B) → Type 0
AllKeep P [] = Unit {0}
AllKeep {W} P (f ∷ futures) = ((w : W) → P w → P (f w).0) × AllKeep P futures

module _ {W Err : Type 0} (handle_run : W → EventTypeTag → List RunRecord → W × RunResult Err)
    (join_all : List (W → W × RunResult Err) → W → W × List (RunResult Err)) (P : W → Type 0)
    (handle_keeps : (w : W) (tag : EventTypeTag) (run : List RunRecord)
      → P w
      → P (handle_run w tag run).0)
    (join_keeps : (futures : List (W → W × RunResult Err))
      → AllKeep P futures
      → (w : W) → P w
      → P (join_all futures w).0)
    (plan : Plan) (parsed : List ParsedRecord) where
  run_one-keeps : (run : Run) (w : W) → P w → P (run_one handle_run join_all plan parsed run w).0
  unfolding run_one
  run_one-keeps run w p = handle_keeps w run.tag _ p

  runs-AllKeep : (runs : List Run) → AllKeep P (map (run_one handle_run join_all plan parsed) runs)
  runs-AllKeep [] = tt
  runs-AllKeep (run ∷ runs) = (run_one-keeps run, runs-AllKeep runs)

  run_stage-keeps :
      (stage : Stage) (run : Option Run) (w : W) (o : StageOutcome Err × List ℕ)
      → P w
      → P (run_stage handle_run join_all plan parsed stage run w o).0
  unfolding run_stage
  run_stage-keeps stage none w o p = p
  run_stage-keeps stage (some run) w o p = run_one-keeps run w p

  run_body-keeps :
      (runs : List Run) (w : W) (o : StageOutcome Err × List ℕ)
      → P w
      → P (run_body handle_run join_all plan parsed runs w o).0
  unfolding run_body
  run_body-keeps runs w o p = join_keeps _ (runs-AllKeep runs) w p

  unless_failed-keeps :
      (next : W → StageOutcome Err × List ℕ → W × (StageOutcome Err × List ℕ))
      → ((w : W) (o : StageOutcome Err × List ℕ) → P w → P (next w o).0)
      → (s : W × (StageOutcome Err × List ℕ)) → P s.0
      → P (unless_failed next s).0
  unless_failed-keeps next k (w, (o, c)) p = go o.error
    where
      go : (e : Option Err) → P (unless_failed next (w, (record o { error = e }, c))).0
      go none = k w (record o { error = none }, c) p
      go (some e) = p

  run_segment-keeps :
      (segment : Segment) (w : W) (completed : List ℕ)
      → P w
      → P (run_segment handle_run join_all plan parsed segment w completed).0
  unfolding run_segment
  run_segment-keeps segment w completed p =
      let start : StageOutcome Err × List ℕ =
        (record { error = none; failed_runs = [] }, completed) in
      let head =
        run_stage handle_run join_all plan parsed Stage.head (View.head plan segment) w start in
      let body = run_body handle_run join_all plan parsed (View.body plan segment) in
      unless_failed-keeps
        (run_stage handle_run join_all plan parsed Stage.tail (View.tail plan segment))
        (run_stage-keeps Stage.tail (View.tail plan segment)) (unless_failed body head)
        (unless_failed-keeps body (run_body-keeps (View.body plan segment)) head
          (run_stage-keeps Stage.head (View.head plan segment) w start p))

  execute_from-keeps :
      (index : ℕ) (segs : List Segment) (w : W) (completed : List ℕ)
      → P w
      → P (execute_from handle_run join_all plan parsed index segs w completed).0
  unfolding execute_from
  execute_from-keeps index [] w completed p = p
  execute_from-keeps index (segment ∷ rest) w completed p =
      let o = run_segment handle_run join_all plan parsed segment w completed in
      let q = run_segment-keeps segment w completed p in
      elim (Option-cases o.1.0.error) [
        | inl e ↦ rw (execute_from, e) (execute_from-keeps (suc index) rest o.0 o.1.1 q)
        | inr (x, e) ↦ rw (execute_from, e) q
      ]

  pub execute_key-keeps :
      (key : KeyPlan) (w : W) → P w → P (execute_key handle_run join_all plan parsed key w).0
  unfolding execute_key
  execute_key-keeps key w p = execute_from-keeps 0 (View.segments plan key) w [] p
