-- ===== src/Reporter.antt =====
-- src/tributo_knova/reporter.py: KnovaRedisEventReporter, the serialization of lifecycle events to
-- one Redis stream for each operation.
pub mod State
pub mod Codes
pub mod Script
pub mod Events
pub mod Methods
pub mod Restore
pub mod Once
pub mod Closing
pub mod Calls
pub mod Deadline
pub mod Restart
pub mod Failed
