-- ===== src/Values.antt =====
-- The value objects of pkg/domain/job_aggregate/value_objects and
-- pkg/domain/queue_aggregate/value_objects: one child module for the lifecycle states, the priority,
-- the validated names and the queue weight, and the error codes of both aggregates.
pub mod Codes
pub mod States
pub mod Priorities
pub mod Names
pub mod Weights
