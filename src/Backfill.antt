-- ===== src/Backfill.antt =====
-- tools/githubprbackfill: stamps for merged pull requests.
pub mod Scoring
pub mod Files
pub mod Reviews
pub mod Plan
