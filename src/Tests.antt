-- ===== src/Tests.antt =====
-- Runs of the models at concrete inputs.
pub mod ParanoidPirate
pub mod Freelance
pub mod Brokers
pub mod Flows
pub mod Systems
pub mod Joined
pub mod Options
pub mod Forecast
pub mod TinyOptions
