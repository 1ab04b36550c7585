-- ===== src/Ofe/Api.antt =====
-- include/ofe/api/api_server.h: how many symbols each tier may have.
mod Tests
use rudra_org.Common.{ℕ, Bool, ltb}

pub data SymbolQuotaTier : Type 0 where
  bronze silver gold platinum : SymbolQuotaTier

-- The array of the limits, by tier.
pub record SymbolQuotaLimits : Type 0 where
  pub max_bronze : ℕ
  pub max_silver : ℕ
  pub max_gold : ℕ
  pub max_platinum : ℕ

-- `SymbolQuotaLimits limits_{}`
abbrev pub default_limits : SymbolQuotaLimits
default_limits = record { max_bronze = 32; max_silver = 128; max_gold = 512; max_platinum = 2048 }

abbrev pub max_symbols : SymbolQuotaLimits → SymbolQuotaTier → ℕ
max_symbols limits bronze = limits.max_bronze
max_symbols limits silver = limits.max_silver
max_symbols limits gold = limits.max_gold
max_symbols limits platinum = limits.max_platinum

pub record SymbolQuotaEnforcer : Type 0 where
  pub limits : SymbolQuotaLimits

unfoldable pub set_limits : SymbolQuotaLimits → SymbolQuotaEnforcer → SymbolQuotaEnforcer
set_limits limits e = record e { limits = limits }

unfoldable pub can_allocate :
    SymbolQuotaEnforcer → SymbolQuotaTier → (current_symbol_count : ℕ) → Bool
can_allocate e tier current_symbol_count = ltb current_symbol_count (max_symbols e.limits tier)
