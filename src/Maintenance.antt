-- ===== src/Maintenance.antt =====
-- The maintenance module: recurring activities and their executions.
pub mod Calendar
pub mod Schedule
pub mod Execution
pub mod Activity
pub mod Ports
pub mod ExecutionService
pub mod ActivityService
pub mod ExecutionWorker
pub mod DueCheck
