-- ===== src/Tests.antt =====
-- The theorems at concrete inputs, and small runs of the definitions.
mod Samples
pub mod Builder
pub mod Planning
pub mod Services
pub mod Names
pub mod Clamps
pub mod Linking
pub mod Containment
pub mod Statistics
pub mod Cycles
pub mod Flow
pub mod ReadFile
pub mod Snippets
pub mod Reviews
