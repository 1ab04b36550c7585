-- ===== src/Session/Router/Tests.antt =====
-- Runs of the router, and its theorems at concrete routers.
use rudra_org.Common.{ℕ, ◌≡◌, refl, true, some, [], ◌∷◌, arith}
use rudra_org.Common.Int.{pos}
use rudra_org.Common.Assoc.{lookup}
use rudra_org.Float.Fixed.{Fixed}
use rudra_org.Session.Tick.{ask, trade, iqfeed, UniversalTickRecord}
use rudra_org.Session.Ring.{SpscRingBuffer, initial}
use rudra_org.Session.Ring.Run.{initial-Refines}
use rudra_org.Session.Router.{
  TickRouter, Routing, tick_exponent, route, route_all, compute_symbol_id,
}
use rudra_org.Session.Router.Accounts.{IsBacked, accounted, route_all-accounted}
use rudra_org.Session.Router.Delivery.{Delivered, route-Delivered}

abbrev tick : ℕ → UniversalTickRecord Fixed
tick symbol_id = record {
  exchange_ts_ns = pos 0;
  receive_ts_ns = pos 0;
  exchange_seq_no = 0;
  price = pos 100;
  volume = pos 1;
  symbol_id = symbol_id;
  side = ask;
  tick_type = trade;
  provider = iqfeed;
  day_code = 68;
  trade_conditions = 0;
}

-- "AB", and its FNV-1a hash.
symbol_id_of_ab : compute_symbol_id (65 ∷ 98 ∷ []) ≡ 752165258
unfolding compute_symbol_id
symbol_id_of_ab = refl

abbrev buffer : SpscRingBuffer (UniversalTickRecord Fixed)
buffer = initial tick_exponent (tick 0)

abbrev router : TickRouter
router = record {
  max_symbols = 1;
  symbol_map = record { key = 7; value = 0 } ∷ [];
  ticks_routed = 0;
  ticks_dropped = 0;
  ticks_unknown = 0;
}

abbrev routing : Routing Fixed
routing = record { router = router; buffers = buffer ∷ [] }

routing-IsBacked : IsBacked routing
unfolding lookup
routing-IsBacked symbol_id pointer found = ground arith

route_all-accounted_example :
    (s' : Routing Fixed) × (route_all routing (tick 7 ∷ tick 8 ∷ []) ≡ some s')
    × (accounted s'.router ≡ 2)
route_all-accounted_example =
    route_all-accounted routing (tick 7 ∷ tick 8 ∷ []) routing-IsBacked (omega arith)

route-Delivered_example :
    (s' : Routing Fixed) × (route routing (tick 7) ≡ some (true, s'))
    × Delivered routing s' 0 (tick 7 ∷ []) true
unfolding lookup
route-Delivered_example =
    route-Delivered routing (tick 7) 0 buffer [] refl refl
      (initial-Refines tick_exponent (omega arith) (tick 0))
