-- ===== src/Metrics.antt =====
-- internal/metrics: the prices of models.
pub mod Pricing
pub mod Store
mod Examples
