-- ===== src/Partition/Plan/Assign.antt =====
-- `assign_segments` of wakuwaku-iggy/src/partition/plan.rs: one walk of the log that gives each
-- record a segment. The hash map from a key to its slot is a function.
pub mod Meta
pub mod Stepped
pub mod Steps
pub mod Fences
pub mod Kept
pub mod Each
use wakuwaku.Base.{
  ℕ, suc, ◌==◌, Bool, true, false, ◌&&◌, not, List, [], ◌∷◌, ◌++◌, Option, none, some, get_elem?,
  length, modify, is_some_eq, if◌then◌else◌,
}
use wakuwaku.Events.{is_acquire, is_release, acquire, acq_rel, release, relaxed}
use wakuwaku.Partition.Plan.{PlanRecord, KeyPlan, SegmentMeta}

-- Index into the keys, and the segment still accepting records.
pub record Slot : Type 0 where
  pub index : ℕ
  pub open_segment : Option ℕ

pub record Walk : Type 0 where
  pub slots : ℕ → Option Slot
  pub keys : List KeyPlan
  pub metas : List SegmentMeta
  pub segment_of : List ℕ

unfoldable pub start : Walk
start = record { slots = λ _. none; keys = []; metas = []; segment_of = [] }

-- The slot of a key in a map that was written at one key.
abbrev pub set_slot : ℕ → Slot → (ℕ → Option Slot) → ℕ → Option Slot
set_slot k s slots j = if k == j then some s else slots j

-- `slots.entry(&record.key).or_insert_with(..)`: the slot, and the keys with a new one at the end.
pub entry : Option Slot → PlanRecord → List KeyPlan → Slot × List KeyPlan
entry (some slot) r keys = (slot, keys)
entry none r keys = (
  record { index = length keys; open_segment = none },
  keys ++ record { key = r.key; segments = record { start = 0; end = 0 } } ∷ [],
)

-- Whether the record may not join the open segment.
pub cut : PlanRecord → Option SegmentMeta → Bool
cut r none = false
cut r (some meta) =
    if is_acquire r.ordering
    then true
    else (is_release r.ordering && (meta.mixed && is_some_eq meta.head r.tag))

-- `*open` after the test for a cut.
pub still_open : PlanRecord → List SegmentMeta → Option ℕ → Option ℕ
unfolding cut
still_open r metas none = none
still_open r metas (some s) = if cut r (get_elem? metas s) then none else some s

-- `*open.get_or_insert_with(..)`: the segment, and the metadata with a new one at the end.
pub get_or_insert : ℕ → List SegmentMeta → Option ℕ → ℕ × List SegmentMeta
get_or_insert key metas (some s) = (s, metas)
get_or_insert key metas none =
    (length metas, metas ++ record { key = key; head = none; tail = none; mixed = false } ∷ [])

-- `meta.head.is_some_and(|head| head != record.tag)`
abbrev other_head : Option ℕ → ℕ → Bool
other_head none tag = false
other_head (some h) tag = not (h == tag)

-- The changes to the segment's metadata.
pub update : PlanRecord → SegmentMeta → SegmentMeta
update r m =
    let m1 = if is_acquire r.ordering then record m { head = some r.tag } else m in
    let m2 = if other_head m1.head r.tag then record m1 { mixed = true } else m1 in
    if is_release r.ordering then record m2 { tail = some r.tag } else m2

-- The body of the loop once the slot is known.
pub place : PlanRecord → Walk → Slot × List KeyPlan → Walk
unfolding still_open get_or_insert update
place r w (slot, keys) =
    let (segment, metas) =
      get_or_insert slot.index w.metas (still_open r w.metas slot.open_segment) in
    record {
      slots =
          set_slot r.key
            (record {
              index = slot.index;
              open_segment = if is_release r.ordering then none else some segment;
            })
            w.slots;
      keys = keys;
      metas = modify (update r) segment metas;
      segment_of = w.segment_of ++ segment ∷ [];
    }

pub step : Walk → PlanRecord → Walk
unfolding entry place
step w r = place r w (entry (w.slots r.key) r w.keys)

pub walk : Walk → List PlanRecord → Walk
walk w [] = w
walk w (r ∷ rs) = walk (step w r) rs

unfoldable pub assign_segments : List PlanRecord → Walk
unfolding walk start step
assign_segments records = walk start records
