-- ===== src/Partition/Plan/Examples.antt =====
-- The planner on small batches, after the tests of wakuwaku-iggy/src/partition/plan.rs.
use mathlib.Core.List.{Perm}
use wakuwaku.Base.{
  ℕ, ◌<◌, ◌≡◌, refl, true, List, [], ◌∷◌, Option, none, some, map, get_elem?, arith,
}
use mathlib.Core.Option
use wakuwaku.Events.{EventAtomicOrdering, relaxed, acquire, release}
use wakuwaku.Partition.Plan.{PlanRecord, KeyPlan, Plan, rank}
use wakuwaku.Partition.Plan.View
use wakuwaku.Partition.Plan.Build.{new, order_of}
use wakuwaku.Partition.Plan.Order.{range}
use wakuwaku.Partition.Plan.Assign.{assign_segments}
use wakuwaku.Partition.Plan.Assign.Fences.{required}
use wakuwaku.Partition.Plan.Reading.{keys_records}
use wakuwaku.Partition.Plan.Tiling.Complete.{new-exact}
use wakuwaku.Partition.Plan.Ordering.{Ahead, order-respects, assign_segments-Ahead}

abbrev rec : ℕ → ℕ → EventAtomicOrdering → PlanRecord
rec key tag ordering = record { key = key; tag = tag; ordering = ordering }

-- The runs of each segment of each key: head, body, tail.
shape : Plan → List (ℕ × List (Option (List ℕ) × List (List ℕ) × Option (List ℕ)))
unfolding View.segments View.head View.body View.tail View.records
shape p =
    map
      (λ (k : KeyPlan). (
        k.key,
        map
            (λ s. (
              Option.map (View.records p) (View.head p s),
              map (View.records p) (View.body p s),
              Option.map (View.records p) (View.tail p s),
            ))
            (View.segments p k),
      ))
      p.keys

relaxed_batch : List PlanRecord
relaxed_batch =
    rec 0 1 relaxed ∷ rec 1 1 relaxed ∷ rec 0 2 relaxed ∷ rec 0 1 relaxed ∷ rec 0 2 relaxed ∷ []

relaxed_shape :
    shape (new relaxed_batch)
    ≡ (0, (none, (0 ∷ 3 ∷ []) ∷ (2 ∷ 4 ∷ []) ∷ [], none) ∷ [])
      ∷ (1, (none, (1 ∷ []) ∷ [], none) ∷ [])
      ∷ []
unfolding shape new relaxed_batch rank
relaxed_shape = refl

released_shape :
    shape (new (rec 0 1 relaxed ∷ rec 0 2 relaxed ∷ rec 0 1 release ∷ rec 0 2 relaxed ∷ []))
    ≡ (0, (none, (1 ∷ []) ∷ [], some (0 ∷ 2 ∷ [])) ∷ (none, (3 ∷ []) ∷ [], none) ∷ []) ∷ []
unfolding shape new rank
released_shape = refl

acquiring_shape :
    shape (new (rec 0 2 relaxed ∷ rec 0 1 acquire ∷ rec 0 2 relaxed ∷ rec 0 1 relaxed ∷ []))
    ≡ (0, (none, (0 ∷ []) ∷ [], none) ∷ (some (1 ∷ 3 ∷ []), (2 ∷ []) ∷ [], none) ∷ []) ∷ []
unfolding shape new rank
acquiring_shape = refl

abbrev fenced : List PlanRecord
fenced = rec 0 2 relaxed ∷ rec 0 1 acquire ∷ rec 1 7 relaxed ∷ rec 0 2 release ∷ []

abbrev second : PlanRecord
second = rec 0 1 acquire

abbrev fourth : PlanRecord
fourth = rec 0 2 release

fenced_required : required second fourth ≡ true
unfolding required
fenced_required = refl

order-respects_example : 1 < 2
unfolding order_of rank
order-respects_example =
    order-respects fenced second fourth 1 3 refl refl (omega arith) fenced_required 1 2 refl refl

assign_segments-Ahead_example :
    (s : ℕ) × (t : ℕ) × (get_elem? (assign_segments fenced).segment_of 1 ≡ some s)
    × (get_elem? (assign_segments fenced).segment_of 3 ≡ some t)
    × Ahead (assign_segments fenced).metas second fourth s t
assign_segments-Ahead_example =
    assign_segments-Ahead fenced second fourth 1 3 refl refl (omega arith) fenced_required

new-exact_example :
    (keys_records (new fenced) (new fenced).keys ≡ order_of fenced)
    × Perm (keys_records (new fenced) (new fenced).keys) (0 ∷ 1 ∷ 2 ∷ 3 ∷ [])
unfolding range
new-exact_example = new-exact fenced
