-- ===== src/Tests.antt =====
-- The theorems at concrete inputs, and tests.
mod KnowledgeGraph
mod Workbench
mod Distillation
mod Reviews
mod Retrieval
mod RunStore
mod Graph
mod Dataset
mod Temporal
mod Window
mod Processes
mod Evaluation
mod Profiles
