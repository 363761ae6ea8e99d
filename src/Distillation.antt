-- ===== src/Distillation.antt =====
-- distillation/: the samples of the distillation pipeline and their validation.
pub mod Schema
pub mod References
pub mod Validator
pub mod Codec
pub mod Dataset
pub mod Evaluation
pub mod Controls
