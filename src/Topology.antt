-- ===== src/Topology.antt =====
-- internal/query/topology.go. The rows that the graph store's queries return are arguments.
pub mod Connections
pub mod Services
pub mod Path
pub mod Cycles
