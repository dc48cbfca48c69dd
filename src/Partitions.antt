-- ===== src/Partitions.antt =====
-- internal/services/topic/partition.go: the partition manager.
pub mod Assign
pub mod Manager
pub mod Rebalance
pub mod RoundRobin
pub mod Safety
mod Tests
