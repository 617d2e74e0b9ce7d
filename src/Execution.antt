-- ===== src/Execution.antt =====
-- pkg/execution: what a job requires of the executor, and what an executor supplies.
pub mod Text
pub mod Selector
pub mod Quantity
pub mod Requirements
pub mod Fields
pub mod Normalize
pub mod Compare
pub mod Negotiate
pub mod Demand
mod Tests
