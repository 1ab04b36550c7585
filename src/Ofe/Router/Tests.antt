-- ===== src/Ofe/Router/Tests.antt =====
-- Runs of the router, and its theorems at concrete ticks.
use rudra_org.Common.{ℕ, ◌≡◌, refl, some, List, [], ◌∷◌, ◌++◌, get_elem?}
use rudra_org.Common.Int.{pos}
use rudra_org.Common.Assoc.{map_option}
use rudra_org.Float.Fixed.{Fixed}
use rudra_org.Ofe.Tick.{UniversalTickRecord}
use rudra_org.Ofe.Router.{TickRouter, make_router, dispatch_all}
use rudra_org.Ofe.Router.Fifo.{IsValid, make_router-IsValid, of_shard, dispatch_all_lem}

abbrev tick : ℕ → ℕ → UniversalTickRecord Fixed
tick n symbol = record {
  timestamp_ns = n;
  sequence = n;
  symbol_id = symbol;
  venue_id = 0;
  price = pos 100;
  size = pos 1;
  bid_price = pos 99;
  ask_price = pos 101;
  bid_size = 5;
  ask_size = 5;
}

abbrev ticks : List (UniversalTickRecord Fixed)
ticks = tick 1 4 ∷ tick 2 7 ∷ tick 3 6 ∷ []

abbrev router : TickRouter Fixed
router = make_router 2

no_shards : make_router {D = Fixed} 0 ≡ record { shard_count = 1; shards = [] ∷ [] }
unfolding make_router
no_shards = refl

dispatch_all_lem_example :
    (r' : TickRouter Fixed) × (dispatch_all router ticks ≡ some r')
    × IsValid r'
    × ((index : ℕ)
        → get_elem? r'.shards index
          ≡ map_option
              (λ queue. queue ++ of_shard router index ticks)
              (get_elem? router.shards index))
dispatch_all_lem_example = dispatch_all_lem router ticks (make_router-IsValid 2)

abbrev loaded : TickRouter Fixed
loaded = record { shard_count = 2; shards = (tick 1 4 ∷ tick 3 6 ∷ []) ∷ (tick 2 7 ∷ []) ∷ [] }
