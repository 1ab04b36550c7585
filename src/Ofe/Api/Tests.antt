-- ===== src/Ofe/Api/Tests.antt =====
-- The limits of the tiers at their bounds, and against the defaults of the configuration.
use rudra_org.Common.{◌≡◌, refl, true, false}
use rudra_org.Float.Fixed.{Fixed, fixed_double}
use rudra_org.Ofe.Config.{EngineConfig, default_config}
use rudra_org.Ofe.Api.{bronze, gold, default_limits, SymbolQuotaEnforcer, set_limits, can_allocate}

abbrev fresh : SymbolQuotaEnforcer
fresh = record { limits = default_limits }

last_bronze : can_allocate fresh bronze 31 ≡ true
unfolding can_allocate
last_bronze = refl

full_bronze : can_allocate fresh bronze 32 ≡ false
unfolding can_allocate
full_bronze = refl

raised : can_allocate (set_limits (record default_limits { max_gold = 600 }) fresh) gold 512 ≡ true
unfolding can_allocate set_limits
raised = refl

abbrev config : EngineConfig Fixed
config = default_config

-- The two sources of the defaults agree.
same_defaults : default_limits ≡ record {
  max_bronze = config.symbol_quota_bronze;
  max_silver = config.symbol_quota_silver;
  max_gold = config.symbol_quota_gold;
  max_platinum = config.symbol_quota_platinum;
}
same_defaults = refl
