-- ===== src/Tests.antt =====
-- Runs of the definitions on concrete inputs, and the theorems at inputs that meet their hypotheses.
pub mod Decimal
pub mod Payloads
pub mod Codec
pub mod Pydantic
pub mod Protocol
mod Broker
pub mod Validation
pub mod Reporter
mod Driver
pub mod Training
mod Execution
mod Inference
