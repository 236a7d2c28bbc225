-- ===== src/DataNode.antt =====
-- The data node: internal/datanode/datanode.go.
pub mod Content
pub mod Disk
pub mod Resolve
pub mod Service
pub mod Ranges
