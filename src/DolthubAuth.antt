-- ===== src/DolthubAuth.antt =====
-- internal/dolthubauth: the service that keeps the DoltHub credentials of rigs.
pub mod Types
pub mod Validation
pub mod Tables
pub mod Store
pub mod Redeem
pub mod Patch
pub mod Service
pub mod Requests
pub mod Server
pub mod Replay
pub mod Run
pub mod Authority
pub mod Proxy
pub mod Tokens
pub mod Versions
pub mod Metadata
