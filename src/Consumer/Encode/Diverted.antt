-- ===== src/Consumer/Encode/Diverted.antt =====
-- What `encode_key` (wakuwaku-iggy/src/consumer/encode.rs) writes for a key that is diverted whole.
use wakuwaku.Base.{
  ℕ, zero, suc, ◌==◌, Bool, true, false, ◌≡◌, refl, sym, ap, ap₂, ◌∙◌, inl, inr, List, [], ◌∷◌,
  ◌++◌, Option, none, some, length, map, length-map, append-nil, append_assoc, Option-cases,
  if◌then◌else◌, arith,
}
use wakuwaku.Events.{EventTypeTag, EventAssociativity, EventAtomicOrdering}
use wakuwaku.Partition.Plan.{KeyPlan, Segment, Run, Plan}
use wakuwaku.Partition.Plan.View
use wakuwaku.Partition.Plan.Reading.{all_runs, to_list}
use wakuwaku.Partition.Plan.Order.{range}
use wakuwaku.Consumer.Record.{ParsedRecord}
use wakuwaku.Consumer.Handler.{RunRecord}
use wakuwaku.Consumer.Execute.{Stage, FailedRun}
use wakuwaku.Consumer.Encode.{
  StageKind, kind_of, stage_orderings, RetryEntry, zip_entries, run_entries, push_run, reduce,
  payloads_of, encode_runs, body_stages, at_stage, segment_stages, encode_segments, encode_after,
  encode_key,
}

abbrev pub payloads : List RetryEntry → List (List ℕ)
payloads entries = map (λ (e : RetryEntry). e.payload) entries

payloads-append : (xs ys : List RetryEntry) → payloads (xs ++ ys) ≡ payloads xs ++ payloads ys
payloads-append [] ys = refl
payloads-append (x ∷ xs) ys = ap (◌∷◌ x.payload) (payloads-append xs ys)

length-range : (from n : ℕ) → length (range from n) ≡ n
unfolding range
length-range from zero = refl
length-range from (suc n) = ap suc (length-range (suc from) n)

length-stage_orderings : (kind : StageKind) (n : ℕ) → length (stage_orderings kind n) ≡ n
unfolding stage_orderings
length-stage_orderings kind n = length-map _ (range 0 n) ∙ length-range 0 n

payloads-zip_entries :
    (key : ℕ) (tag : EventTypeTag) (a : EventAssociativity) (ps : List (List ℕ))
    (orderings : List EventAtomicOrdering)
    → length orderings ≡ length ps
    → payloads (zip_entries key tag a ps orderings) ≡ ps
unfolding zip_entries
payloads-zip_entries key tag a [] orderings e = refl
payloads-zip_entries key tag a (p ∷ ps) [] e = absurd (omega arith)
payloads-zip_entries key tag a (p ∷ ps) (o ∷ orderings) e =
    ap (◌∷◌ p) (payloads-zip_entries key tag a ps orderings (omega arith))

-- The second if the first is there.
abbrev pub if_known : Option EventAssociativity → List (List ℕ) → List (List ℕ)
if_known none ps = []
if_known (some a) ps = ps

abbrev pub runs_of : List (Stage × Run) → List Run
runs_of [] = []
runs_of ((stage, run) ∷ runs) = run ∷ runs_of runs

runs_of-append : (xs ys : List (Stage × Run)) → runs_of (xs ++ ys) ≡ runs_of xs ++ runs_of ys
runs_of-append [] ys = refl
runs_of-append ((stage, run) ∷ xs) ys = ap (◌∷◌ run) (runs_of-append xs ys)

module _ (associativity : EventTypeTag → Option EventAssociativity)
    (reduce_run : EventTypeTag → List RunRecord → List (List ℕ)) where
  payloads-run_entries :
      (key : ℕ) (kind : StageKind) (run : Run) (ps : List (List ℕ))
      → payloads (run_entries associativity reduce_run key kind run ps)
        ≡ if_known (associativity run.tag) ps
  unfolding run_entries
  payloads-run_entries key kind run ps = elim (Option-cases (associativity run.tag)) [
    | inl e ↦ rw (run_entries, e) refl
    | inr (a, e) ↦
        rw (run_entries, e)
          (payloads-zip_entries key run.tag a ps (stage_orderings kind (length ps))
            (length-stage_orderings kind (length ps)))
  ]

  module _ (plan : Plan) (parsed : List ParsedRecord) where
    -- The reduced payloads of runs, without those of an unknown type.
    abbrev pub runs_payloads : List Run → List (List ℕ)
    runs_payloads [] = []
    runs_payloads (run ∷ runs) =
        if_known (associativity run.tag) (reduce associativity reduce_run plan parsed run)
        ++ runs_payloads runs

    abbrev pub segments_payloads : List Segment → List (List ℕ)
    segments_payloads [] = []
    segments_payloads (segment ∷ rest) =
        runs_payloads (all_runs plan segment) ++ segments_payloads rest

    payloads-encode_runs :
        (key : ℕ) (runs : List (Stage × Run)) (failed : List FailedRun) (entries : List RetryEntry)
        → payloads
            (encode_runs associativity reduce_run plan parsed key none runs (failed, entries)).1
          ≡ payloads entries ++ runs_payloads (runs_of runs)
    unfolding encode_runs payloads_of push_run
    payloads-encode_runs key [] failed entries = sym (append-nil (payloads entries))
    payloads-encode_runs key ((stage, run) ∷ runs) failed entries =
        let ps = reduce associativity reduce_run plan parsed run in
        let new = run_entries associativity reduce_run key (kind_of stage) run ps in
        payloads-encode_runs key runs failed (entries ++ new)
        ∙ ap (λ (l : List (List ℕ)). l ++ runs_payloads (runs_of runs))
            (payloads-append entries new
              ∙ ap (◌++◌ (payloads entries)) (payloads-run_entries key (kind_of stage) run ps))
        ∙ append_assoc (payloads entries) (if_known (associativity run.tag) ps)
            (runs_payloads (runs_of runs))

    runs_of-body_stages : (i : ℕ) (runs : List Run) → runs_of (body_stages i runs) ≡ runs
    runs_of-body_stages i [] = refl
    runs_of-body_stages i (run ∷ runs) = ap (◌∷◌ run) (runs_of-body_stages (suc i) runs)

    runs_of-at_stage :
        (stage : Stage) (run : Option Run) → runs_of (at_stage stage run) ≡ to_list run
    runs_of-at_stage stage none = refl
    runs_of-at_stage stage (some run) = refl

    runs_of-segment_stages :
        (segment : Segment) → runs_of (segment_stages plan segment) ≡ all_runs plan segment
    unfolding segment_stages
    runs_of-segment_stages segment =
        runs_of-append _ _
        ∙ ap₂ (λ (xs ys : List Run). xs ++ ys)
            (runs_of-append _ _
              ∙ ap₂ (λ (xs ys : List Run). xs ++ ys)
                  (runs_of-at_stage Stage.head (View.head plan segment))
                  (runs_of-body_stages 0 (View.body plan segment)))
            (runs_of-at_stage Stage.tail (View.tail plan segment))

    same_none : (b : Bool) → ◌≡◌ {A = Option StageKind} (if b then none else none) none
    same_none true = refl
    same_none false = refl

    payloads-encode_segments :
        (key start index : ℕ) (segs : List Segment) (failed : List FailedRun)
        (entries : List RetryEntry)
        → payloads
            (encode_segments associativity reduce_run plan parsed key none start index segs
              (failed, entries)).1
          ≡ payloads entries ++ segments_payloads segs
    unfolding encode_segments
    payloads-encode_segments key start index [] failed entries = sym (append-nil (payloads entries))
    payloads-encode_segments key start index (segment ∷ rest) failed entries =
        let stages = segment_stages plan segment in
        let s =
          encode_runs associativity reduce_run plan parsed key
            (if index == start then none else none) stages (failed, entries) in
        payloads-encode_segments key start (suc index) rest s.0 s.1
        ∙ ap (λ (l : List (List ℕ)). l ++ segments_payloads rest)
            (ap
                (λ k.
                  payloads
                    (encode_runs associativity reduce_run plan parsed key k stages
                      (failed, entries)).1)
                (same_none (index == start))
              ∙ payloads-encode_runs key stages failed entries
              ∙ ap (λ r. payloads entries ++ runs_payloads r) (runs_of-segment_stages segment))
        ∙ append_assoc (payloads entries) (runs_payloads (all_runs plan segment))
            (segments_payloads rest)

    -- For a key that is diverted whole, `encode_key` writes the reduced payloads of each of its runs, run by
    -- run in the order of the plan, but for runs of a type without a handler, of which it writes none.
    pub payloads-encode_key :
        (Err : Type 0) (key : KeyPlan)
        → payloads (encode_key associativity reduce_run {Err = Err} plan key parsed none)
          ≡ segments_payloads (View.segments plan key)
    unfolding encode_key encode_after
    payloads-encode_key Err key =
        payloads-encode_segments key.key 0 0 (View.segments plan key) [] []
