-- ===== src/Secrets.antt =====
-- pkg/secrets: what one task invocation knows of secret values, and how it keeps them out of output.
pub mod Masks
pub mod Redactor
pub mod Session
pub mod Values
mod Tests
