-- ===== src/Flow.antt =====
-- internal/flow: diagrams that summarise the graph.
pub mod Models
pub mod Views
pub mod Overview
pub mod Ci
pub mod Deploy
pub mod Runtime
pub mod Auth
pub mod Edges
pub mod Engine
pub mod Labels
pub mod Render
