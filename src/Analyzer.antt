-- ===== src/Analyzer.antt =====
-- internal/analyzer: the stages between the detectors and the graph store.
pub mod Merge
pub mod Builder
pub mod Diff
pub mod Layers
