-- ===== src/Model.antt =====
-- internal/model: the data of the graph.
mod Names
pub mod NodeKind
pub mod EdgeKind
pub mod Layer
pub mod Confidence
pub mod Capability
pub mod Node
