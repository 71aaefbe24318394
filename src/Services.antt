-- ===== src/Services.antt =====
-- wakuwaku/src/services: the services of a process.
pub mod CronJob
