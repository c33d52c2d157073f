-- ===== src/Forecast.antt =====
-- internal/forecast: the models that need no artifact.
pub mod Seasonal
pub mod Compare
mod Tests
