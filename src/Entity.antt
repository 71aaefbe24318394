-- ===== src/Entity.antt =====
-- wakuwaku-entity: data sources and the queries that run on them.
pub mod Transaction
pub mod Redis
pub mod Meilisearch
