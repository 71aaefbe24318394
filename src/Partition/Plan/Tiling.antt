-- ===== src/Partition/Plan/Tiling.antt =====
-- The runs, segments and keys that `Plan::new` builds (wakuwaku-iggy/src/partition/plan.rs) cut its order
-- into pieces without gaps or overlaps.
pub mod Ranges
pub mod Keys
pub mod Segments
pub mod Put
pub mod Pushed
pub mod Scan
pub mod Exact
pub mod Sorted
pub mod Complete
