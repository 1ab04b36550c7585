-- ===== src/Ofe.antt =====
-- The header-only engine under include/ofe.
pub mod Tick
pub mod Ring
pub mod Router
pub mod LeeReady
pub mod Signals
pub mod Worker
pub mod Delta
pub mod Bars
pub mod Profile
pub mod Vwap
pub mod Imbalance
pub mod Detector
pub mod Config
pub mod Api
pub mod License
