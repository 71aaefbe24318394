-- ===== src/Entity/Meilisearch.antt =====
-- wakuwaku-entity/src/meilisearch: the parts that don't call the Meilisearch client.
pub mod Keywords
pub mod Filter
