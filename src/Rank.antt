-- ===== src/Rank.antt =====
-- py/rank: the ranking cascade.
pub mod Batcher
pub mod Batched
pub mod Candidates
pub mod CrossEncoder
pub mod Discipline
pub mod Prerank
pub mod Cascade
pub mod Examples
