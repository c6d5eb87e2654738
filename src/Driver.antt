-- ===== src/Driver.antt =====
-- src/tributo_knova/execution_driver.py: the program that runs one request inside a Ray job.
pub mod Failure
pub mod Input
pub mod Main
pub mod Closing
pub mod Executed
