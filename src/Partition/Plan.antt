-- ===== src/Partition/Plan.antt =====
-- wakuwaku-iggy/src/partition/plan.rs: the types of a plan. A key is the u64 hash
-- that the consumer plans by, an index a number. Where Rust would panic on an index out of range
-- the model has a value that stands for nothing; the modules below `Assign` show that the planner's
-- indices are in range.
pub mod View
pub mod Reading
pub mod Assign
pub mod Order
pub mod Build
pub mod Ordering
pub mod Tiling
mod Examples
use wakuwaku.Base.{ℕ, Bool, List, Option, is_some_eq, if◌then◌else◌}
use wakuwaku.Events.{EventTypeTag, EventAtomicOrdering}

pub record PlanRecord : Type 0 where
  pub key : ℕ
  pub tag : EventTypeTag
  pub ordering : EventAtomicOrdering

-- `Range<usize>`
pub record Range : Type 0 where
  pub start : ℕ
  pub end : ℕ

pub record KeyPlan : Type 0 where
  pub key : ℕ
  pub segments : Range

pub record Segment : Type 0 where
  pub head : Option ℕ
  pub body : Range
  pub tail : Option ℕ

pub record Run : Type 0 where
  pub tag : EventTypeTag
  pub records : Range

pub record Plan : Type 0 where
  pub order : List ℕ
  pub runs : List Run
  pub segments : List Segment
  pub keys : List KeyPlan

pub data Rank : Type 0 where
  head body tail : Rank

pub record SegmentMeta : Type 0 where
  pub key : ℕ
  pub head : Option EventTypeTag
  pub tail : Option EventTypeTag
  pub mixed : Bool

-- `SegmentMeta::rank`
unfoldable pub rank : SegmentMeta → EventTypeTag → Rank
rank m tag =
    if is_some_eq m.head tag
    then Rank.head
    else if is_some_eq m.tail tag
    then Rank.tail
    else Rank.body

-- The declaration order of `Rank`, by which it is compared.
abbrev pub rank_num : Rank → ℕ
rank_num Rank.head = 0
rank_num Rank.body = 1
rank_num Rank.tail = 2
