-- ===== src/Consumer/Encode/Examples.antt =====
-- Entries written for a key that failed in its second segment, and for the same key diverted whole. The
-- reduction keeps the first payload of a run, and type 4 has no handler.
use wakuwaku.Base.{ℕ, ◌==◌, ◌≡◌, refl, List, [], ◌∷◌, Option, none, some, map, if◌then◌else◌}
use wakuwaku.Events.{
  EventTypeTag, EventAssociativity, EventAtomicOrdering, relaxed, release, non_associative,
}
use wakuwaku.Partition.Plan.{KeyPlan, Plan, rank}
use wakuwaku.Partition.Plan.View
use wakuwaku.Partition.Plan.Build.{new}
use wakuwaku.Consumer.Record.{ParsedRecord, plan_records}
use wakuwaku.Consumer.Handler.{RunRecord}
use wakuwaku.Consumer.Execute.{Stage, KeyFailure, run_records}
use wakuwaku.Consumer.Encode.{RetryEntry, encode_key}
use wakuwaku.Consumer.Encode.Diverted.{payloads, segments_payloads, payloads-encode_key}

abbrev parsed_of : ℕ → ℕ → EventAtomicOrdering → ParsedRecord
parsed_of offset tag ordering = record {
  offset = offset;
  headers = record {
    tag = tag;
    key = 7;
    properties = record { atomic_level = ordering; associativity = non_associative };
  };
  payload = offset ∷ [];
}

abbrev batch : List ParsedRecord
batch =
    parsed_of 0 1 relaxed
    ∷ parsed_of 1 2 release
    ∷ parsed_of 2 1 relaxed
    ∷ parsed_of 3 3 relaxed
    ∷ parsed_of 4 4 relaxed
    ∷ parsed_of 5 2 release
    ∷ []

abbrev batch_plan : Plan
batch_plan = new (plan_records batch)

abbrev the_key : KeyPlan
the_key = record { key = 7; segments = record { start = 0; end = 2 } }

abbrev algebra_of : EventTypeTag → Option EventAssociativity
algebra_of tag = if tag == 4 then none else some non_associative

abbrev keep_first : EventTypeTag → List RunRecord → List (List ℕ)
keep_first tag [] = []
keep_first tag (r ∷ run) = r.payload ∷ []

-- In the body of the second segment the runs of types 1 and 3 failed, with two events left and one.
abbrev failure : KeyFailure ℕ
failure = record {
  segment = 1;
  error = 0;
  failed_runs =
      record { stage = Stage.body 0; records = 2 ∷ []; remainder = (20 ∷ []) ∷ (21 ∷ []) ∷ [] }
      ∷ record { stage = Stage.body 1; records = 3 ∷ []; remainder = (30 ∷ []) ∷ [] }
      ∷ [];
}

abbrev written : RetryEntry → ℕ × EventAtomicOrdering × List ℕ
written e = (e.headers.tag, e.headers.properties.atomic_level, e.payload)

encode_key-failure :
    map written (encode_key algebra_of keep_first batch_plan the_key batch (some failure))
    ≡ (1, relaxed, 20 ∷ [])
      ∷ (1, relaxed, 21 ∷ [])
      ∷ (3, relaxed, 30 ∷ [])
      ∷ (2, release, 5 ∷ [])
      ∷ []
unfolding encode_key new rank plan_records run_records View.segments View.head View.body View.tail
    View.records
encode_key-failure = refl

payloads-encode_key_example :
    payloads (encode_key algebra_of keep_first {Err = ℕ} batch_plan the_key batch none)
    ≡ segments_payloads algebra_of keep_first batch_plan batch (View.segments batch_plan the_key)
payloads-encode_key_example = payloads-encode_key algebra_of keep_first batch_plan batch ℕ the_key
