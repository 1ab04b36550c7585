-- ===== src/Session.antt =====
-- The engine of the first session, under ofe_session1_code/ofe.
pub mod Tick
pub mod Ring
pub mod LeeReady
pub mod Router
pub mod BarTypes
pub mod Bars
pub mod Signals
pub mod Delta
pub mod Imbalance
pub mod Logger
