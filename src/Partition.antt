-- ===== src/Partition.antt =====
-- wakuwaku-iggy/src/partition: the planner of a polled batch and the algebra of runs.
pub mod Plan
pub mod Algebra
