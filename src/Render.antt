-- ===== src/Render.antt =====
-- internal/render: the settings that the configuration is rendered from.
pub mod Values
pub mod Rules
pub mod Load
pub mod Exporters
pub mod Bounds
pub mod Identity
pub mod Metrics
pub mod Settings
pub mod SelfTelemetry
pub mod Table
pub mod Quote
pub mod Run
mod Tests
