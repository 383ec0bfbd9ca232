-- ===== src/Tests.antt =====
-- The theorems at concrete inputs.
pub mod Samples
pub mod Escape
pub mod Vault
mod Board
mod Operations
mod Serving
mod Credentials
