-- ===== src/Upstream.antt =====
-- internal/upstream: what is exported, and where to, by the variables of the environment.
pub mod Headers
pub mod Enums
pub mod Variables
pub mod Exporter
pub mod Resolve
mod Tests
