-- ===== src/Consumer/Encode.antt =====
-- wakuwaku-iggy/src/consumer/encode.rs: the unfinished work of a key as retry entries. The list of
-- handlers is a parameter: the algebra of a type, and `reduce_run`.
pub mod Diverted
mod Examples
use wakuwaku.Base.{
  ℕ, zero, suc, ◌+◌, ◌-◌, ◌==◌, ltb, Bool, true, false, ◌&&◌, List, [], ◌∷◌, ◌++◌, Option, none,
  some, get_elem?, modify, take, drop, length, map, if◌then◌else◌,
}
use wakuwaku.Events.{
  EventTypeTag, EventAssociativity, EventAtomicOrdering, relaxed, acquire, release,
}
use wakuwaku.Events.Headers.{EventHeaders}
use wakuwaku.Partition.Plan.{KeyPlan, Segment, Run, Plan}
use wakuwaku.Partition.Plan.View
use wakuwaku.Partition.Plan.Order.{range}
use wakuwaku.Consumer.Record.{ParsedRecord}
use wakuwaku.Consumer.Handler.{RunRecord}
use wakuwaku.Consumer.Execute.{Stage, FailedRun, KeyFailure, run_records}

pub data StageKind : Type 0 where
  head body tail : StageKind

-- `StageKind::from`
abbrev pub kind_of : Stage → StageKind
kind_of Stage.head = StageKind.head
kind_of (Stage.body i) = StageKind.body
kind_of Stage.tail = StageKind.tail

-- The declaration order of `StageKind`, by which it is compared.
abbrev pub kind_num : StageKind → ℕ
kind_num StageKind.head = 0
kind_num StageKind.body = 1
kind_num StageKind.tail = 2

-- `==` on stages.
pub same_stage : Stage → Stage → Bool
same_stage Stage.head Stage.head = true
same_stage Stage.head (Stage.body j) = false
same_stage Stage.head Stage.tail = false
same_stage (Stage.body i) Stage.head = false
same_stage (Stage.body i) (Stage.body j) = i == j
same_stage (Stage.body i) Stage.tail = false
same_stage Stage.tail Stage.head = false
same_stage Stage.tail (Stage.body j) = false
same_stage Stage.tail Stage.tail = true

-- The closure of `stage_orderings`.
abbrev pub ordering_at : StageKind → ℕ → ℕ → EventAtomicOrdering
ordering_at StageKind.head len i = if i == 0 then acquire else relaxed
ordering_at StageKind.body len i = relaxed
ordering_at StageKind.tail len i = if i + 1 == len then release else relaxed

unfoldable pub stage_orderings : StageKind → ℕ → List EventAtomicOrdering
unfolding range
stage_orderings kind len = map (ordering_at kind len) (range 0 len)

pub record RetryEntry : Type 0 where
  pub headers : EventHeaders
  pub payload : List ℕ

-- `payloads.into_iter().zip(orderings).map(..)`
pub zip_entries :
    ℕ
    → EventTypeTag
    → EventAssociativity
    → List (List ℕ)
    → List EventAtomicOrdering
    → List RetryEntry
zip_entries key tag associativity [] orderings = []
zip_entries key tag associativity (payload ∷ payloads) [] = []
zip_entries key tag associativity (payload ∷ payloads) (ordering ∷ orderings) =
    record {
      headers = record {
        tag = tag;
        key = key;
        properties = record { atomic_level = ordering; associativity = associativity };
      };
      payload = payload;
    }
    ∷ zip_entries key tag associativity payloads orderings

-- `failed.iter().position(|run| run.stage == stage)`
pub position : Stage → List FailedRun → Option ℕ
unfolding same_stage
position stage [] = none
position stage (f ∷ fs) =
    let later = position stage fs in
    if same_stage f.stage stage then some 0 else elim later [ none ↦ none | some i ↦ some (suc i) ]

-- `Vec::swap_remove`: the element, and the rest with the last element in its place.
abbrev last_or : FailedRun → List FailedRun → FailedRun
last_or f [] = f
last_or f (g ∷ fs) = last_or g fs

pub swap_remove : ℕ → List FailedRun → Option FailedRun × List FailedRun
swap_remove i [] = (none, [])
swap_remove i (f ∷ fs) =
    (get_elem? (f ∷ fs) i, take (length fs) (modify (λ _. last_or f fs) i (f ∷ fs)))

-- `body.iter().enumerate().map(|(i, run)| (Stage::Body(i), run))`, from `i`.
abbrev pub body_stages : ℕ → List Run → List (Stage × Run)
body_stages i [] = []
body_stages i (run ∷ runs) = (Stage.body i, run) ∷ body_stages (suc i) runs

abbrev pub at_stage : Stage → Option Run → List (Stage × Run)
at_stage stage none = []
at_stage stage (some run) = (stage, run) ∷ []

-- `head.into_iter().chain(body).chain(tail)`
unfoldable pub segment_stages : Plan → Segment → List (Stage × Run)
segment_stages plan segment =
    at_stage Stage.head (View.head plan segment)
    ++ body_stages 0 (View.body plan segment)
    ++ at_stage Stage.tail (View.tail plan segment)

module _ (associativity : EventTypeTag → Option EventAssociativity)
    (reduce_run : EventTypeTag → List RunRecord → List (List ℕ)) where
  -- The entries that `push_run` adds.
  pub run_entries : ℕ → StageKind → Run → List (List ℕ) → List RetryEntry
  unfolding zip_entries stage_orderings
  run_entries key kind run payloads = elim (associativity run.tag) [
    | none ↦ []
    | some a ↦ zip_entries key run.tag a payloads (stage_orderings kind (length payloads))
  ]

  unfoldable pub push_run : List RetryEntry → ℕ → StageKind → Run → List (List ℕ) → List RetryEntry
  unfolding run_entries
  push_run entries key kind run payloads = entries ++ run_entries key kind run payloads

  pub reduce : Plan → List ParsedRecord → Run → List (List ℕ)
  unfolding run_records
  reduce plan parsed run = reduce_run run.tag (run_records plan parsed run)

  -- The `match` of the loop: the payloads of the run, `none` for `continue`, and the failed runs left.
  pub payloads_of :
      Plan
      → List ParsedRecord
      → Option StageKind
      → List FailedRun
      → Stage
      → Run
      → Option (List (List ℕ)) × List FailedRun
  unfolding reduce position swap_remove
  payloads_of plan parsed none failed stage run = (some (reduce plan parsed run), failed)
  payloads_of plan parsed (some failed_kind) failed stage run =
      let kind = kind_num (kind_of stage) in
      let taken : Option (List (List ℕ)) × List FailedRun = elim (position stage failed) [
        | none ↦ (none, failed)
        | some i ↦
            let (f, rest) = swap_remove i failed in
            (elim f [ none ↦ none | some g ↦ some g.remainder ], rest)
      ] in
      if ltb kind (kind_num failed_kind)
      then (none, failed)
      else if kind == kind_num failed_kind
      then taken
      else (some (reduce plan parsed run), failed)

  abbrev push_payloads :
      List RetryEntry → ℕ → Stage → Run → Option (List (List ℕ)) → List RetryEntry
  push_payloads entries key stage run none = entries
  push_payloads entries key stage run (some payloads) =
      push_run entries key (kind_of stage) run payloads

  -- The inner loop, over the runs of a segment with their stages.
  pub encode_runs :
      Plan
      → List ParsedRecord
      → ℕ
      → Option StageKind
      → List (Stage × Run)
      → List FailedRun × List RetryEntry
      → List FailedRun × List RetryEntry
  unfolding payloads_of push_run
  encode_runs plan parsed key failed_kind [] s = s
  encode_runs plan parsed key failed_kind ((stage, run) ∷ runs) (failed, entries) =
      let (payloads, failed') = payloads_of plan parsed failed_kind failed stage run in
      encode_runs plan parsed key failed_kind runs
        (failed', push_payloads entries key stage run payloads)

  -- The outer loop, from the segment `index` on.
  pub encode_segments :
      Plan
      → List ParsedRecord
      → ℕ
      → Option StageKind
      → ℕ
      → ℕ
      → List Segment
      → List FailedRun × List RetryEntry
      → List FailedRun × List RetryEntry
  unfolding encode_runs segment_stages
  encode_segments plan parsed key failed_kind start index [] s = s
  encode_segments plan parsed key failed_kind start index (segment ∷ rest) s =
      encode_segments plan parsed key failed_kind start (suc index) rest (
        encode_runs plan parsed key (if index == start then failed_kind else none)
          (segment_stages plan segment) s)

  abbrev first_kind : List FailedRun → Option StageKind
  first_kind [] = none
  first_kind (f ∷ fs) = some (kind_of f.stage)

  encode_after : Plan → KeyPlan → List ParsedRecord → ℕ → List FailedRun → List RetryEntry
  unfolding encode_segments
  encode_after plan key parsed start failed =
      let (left, entries) =
        encode_segments plan parsed key.key (first_kind failed) start start
          (drop start (View.segments plan key)) (failed, []) in
      entries

  unfoldable pub encode_key :
      {Err : Type 0}
      → Plan
      → KeyPlan
      → List ParsedRecord
      → Option (KeyFailure Err)
      → List RetryEntry
  unfolding encode_after
  encode_key plan key parsed none = encode_after plan key parsed 0 []
  encode_key plan key parsed (some failure) =
      encode_after plan key parsed failure.segment failure.failed_runs
