-- ===== src/Planning.antt =====
-- The plan graph of a task: its generation, its local repair and the choice of the nodes to run.
pub mod Models
pub mod Engine
pub mod Replan
pub mod Schedule
pub mod Samples
