-- ===== src/Freelance.antt =====
-- The Freelance pattern: model three (model-three-complex-and-nasty) as `Server`, `Sequence`,
-- `Agent`, `Api` and `Service`.
pub mod Server
pub mod Sequence
pub mod Agent
pub mod Api
pub mod Service
pub mod Exchange
pub mod Retry
pub mod Shotgun
