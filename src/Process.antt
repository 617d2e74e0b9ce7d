-- ===== src/Process.antt =====
-- pkg/ops/process: what is kept of the output of a child process.
pub mod Capture
mod Tests
