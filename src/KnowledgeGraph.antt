-- ===== src/KnowledgeGraph.antt =====
-- knowledge_graph/: the world model that the VLM proposes changes to.
pub mod Schema
pub mod Store
pub mod World
pub mod Updater
pub mod Retrieval
