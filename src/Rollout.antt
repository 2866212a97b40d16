-- ===== src/Rollout.antt =====
-- rollout/, hooks/batch.go and deploy/: the order and the batches of a rolling deploy, and the
-- hashes that record how far it came.
pub mod Batches
pub mod Order
pub mod Hashes
pub mod Deploy
mod Samples
