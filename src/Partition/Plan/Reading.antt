-- ===== src/Partition/Plan/Reading.antt =====
-- The runs and records of a plan (wakuwaku-iggy/src/partition/plan.rs), read in the order in which its
-- segments and their stages are handled.
use wakuwaku.Base.{ℕ, List, [], ◌∷◌, ◌++◌, Option, none, some}
use wakuwaku.Partition.Plan.{KeyPlan, Segment, Run, Plan}
use wakuwaku.Partition.Plan.View

-- The runs of an optional stage.
abbrev pub to_list : Option Run → List Run
to_list none = []
to_list (some run) = run ∷ []

module _ (plan : Plan) where
  -- The records of a list of runs.
  abbrev pub records_of : List Run → List ℕ
  records_of [] = []
  records_of (run ∷ runs) = View.records plan run ++ records_of runs

  abbrev pub all_runs : Segment → List Run
  all_runs segment =
      to_list (View.head plan segment) ++ View.body plan segment ++ to_list (View.tail plan segment)

  -- The records of a list of segments.
  abbrev pub segments_records : List Segment → List ℕ
  segments_records [] = []
  segments_records (segment ∷ rest) = records_of (all_runs segment) ++ segments_records rest

  -- The records of a list of keys.
  abbrev pub keys_records : List KeyPlan → List ℕ
  keys_records [] = []
  keys_records (key ∷ keys) = segments_records (View.segments plan key) ++ keys_records keys
