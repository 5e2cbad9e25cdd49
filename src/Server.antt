-- ===== src/Server.antt =====
-- py/server: the corpus shared out, and the queries sent to all shards.
pub mod Broker
pub mod Partition
pub mod Cluster
pub mod Shards
pub mod Measure
pub mod Examples
