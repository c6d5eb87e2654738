-- ===== src/Validation.antt =====
-- src/tributo_knova/validation.py: the structural validation of protocol v2 requests.
pub mod Fields
pub mod Source
pub mod Topology
pub mod Features
pub mod Tuning
pub mod Training
pub mod Safe
pub mod Inference
