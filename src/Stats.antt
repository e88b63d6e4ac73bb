-- ===== src/Stats.antt =====
-- internal/query/stats.go: statistics over the nodes and edges of a graph.
pub mod Ordered
pub mod Ranked
pub mod Names
pub mod Categories
pub mod Totals
pub mod Lazy
