-- ===== src/Training.antt =====
-- src/tributo_knova/training.py: the pure parts of a training execution, from a request to the options
-- of the training and from its result to the payload of the COMPLETED event.
pub mod Checks
pub mod Runtime
pub mod Split
pub mod Evaluation
pub mod Columns
pub mod Objective
pub mod Algorithm
pub mod Failure
pub mod Storage
pub mod Manifest
pub mod Results
