-- ===== src/Consumer.antt =====
-- wakuwaku-iggy/src/consumer and wakuwaku-iggy/src/utils/backoff.rs: what a partition task does
-- with a batch and with the records that failed.
pub mod Backoff
pub mod Record
pub mod Retry
pub mod Handler
pub mod Execute
pub mod Encode
pub mod Runtime
