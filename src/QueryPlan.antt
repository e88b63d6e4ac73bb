-- ===== src/QueryPlan.antt =====
-- internal/intelligence/query: which retrieval path a query takes for a language.
pub mod Plan
pub mod Capabilities
pub mod Planner
