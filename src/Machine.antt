-- ===== src/Machine.antt =====
-- pkg/worker/compiler: the state machine of a recipe, and the catch clauses of its nodes.
pub mod Failure
pub mod Catch
pub mod Node
pub mod Transitions
pub mod Run
pub mod Loop
pub mod Tests
