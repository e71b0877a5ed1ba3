-- ===== src/Tests.antt =====
-- Runs of the theorems on concrete nodes, tasks and files.
pub mod Streams
pub mod Members
pub mod Cluster
pub mod Files
pub mod Records
pub mod Jobs
pub mod Nodes
pub mod Clients
pub mod Sending
