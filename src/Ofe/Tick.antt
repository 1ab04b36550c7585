-- ===== src/Ofe/Tick.antt =====
-- include/ofe/core/tick_record.h: the record that every component works on.
use rudra_org.Common.{ℕ}

pub data TickSide : Type 0 where
  unknown buy sell : TickSide

pub data TickSource : Type 0 where
  unknown feed replay synthetic : TickSource

pub data TickCondition : Type 0 where
  regular opening closing auction correction : TickCondition

pub record UniversalTickRecord (D : Type 0) : Type 0 where
  pub timestamp_ns : ℕ
  pub sequence : ℕ
  pub symbol_id : ℕ
  pub venue_id : ℕ
  pub price : D
  pub size : D
  pub bid_price : D
  pub ask_price : D
  pub bid_size : ℕ
  pub ask_size : ℕ
