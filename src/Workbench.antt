-- ===== src/Workbench.antt =====
-- web_console/: the experiment engine of the web workbench and its stores.
pub mod History
pub mod Repetition
pub mod Experiment
pub mod RunId
pub mod Reviews
pub mod RunStore
pub mod Processes
pub mod Profiles
