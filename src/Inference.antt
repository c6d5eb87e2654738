-- ===== src/Inference.antt =====
-- src/tributo_knova/inference.py: the pure parts of a batch inference, the checks of the model's storage,
-- artifacts and labels.
pub mod Checks
pub mod Tables
pub mod Storage
pub mod Labels
pub mod Artifacts
