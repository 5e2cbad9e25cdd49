-- ===== src/Dense.antt =====
-- py/dense: the dense channel and its fusion with the lexical one.
pub mod Fusion
pub mod Subset
pub mod Sweep
pub mod Examples
