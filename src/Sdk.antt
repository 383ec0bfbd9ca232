-- ===== src/Sdk.antt =====
-- internal/sdk: the client, which performs changes by the workflow's mode and reads the board with
-- the changes that are pending.
pub mod Action
pub mod Pending
pub mod Client
pub mod Reads
pub mod Workspace
pub mod Branches
pub mod Mutate
pub mod Mutations
