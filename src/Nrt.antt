-- ===== src/Nrt.antt =====
-- py/nrt: near-real-time indexing.
pub mod Engine
pub mod Segment
pub mod MergePolicy
pub mod Newlines
pub mod Tsv
pub mod Files
pub mod Index
pub mod Merge
pub mod Lag
pub mod Examples
