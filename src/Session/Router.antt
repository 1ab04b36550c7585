-- ===== src/Session/Router.antt =====
-- ofe_session1_code/ofe/include/core/tick_router.h and src/core/tick_router.cpp: ticks go to the ring
-- buffer that is registered for their symbol. A registered pointer is the index of a buffer in the
-- store of buffers; two symbols may share one. A call of
-- `route` shares the registry's lock with others; here one call follows another.
pub mod Accounts
pub mod Delivery
pub mod Hash
mod Tests
use Prim.Native.Nat.{bit_xor}
use rudra_org.Common.{
  ℕ, ◌+◌, ◌-◌, ◌*◌, ◌%◌, ◌^◌, Bool, true, false, ◌&&◌, Option, none, some, List, [], ◌∷◌, map,
  foldl, leb, if◌then◌else◌, length, get_elem?, set,
}
use rudra_org.Common.Assoc.{Entry, lookup, alter, erase}
use rudra_org.Session.Tick.{UniversalTickRecord}
use rudra_org.Session.Ring.{SpscRingBuffer, try_push}

pub record RouterStats : Type 0 where
  pub ticks_routed_total : ℕ
  pub ticks_dropped_total : ℕ
  pub ticks_unknown_symbol : ℕ
  pub ticks_per_second : ℕ
  pub active_symbols : ℕ

pub record TickRouter : Type 0 where
  pub max_symbols : ℕ
  pub symbol_map : List (Entry ℕ)
  pub ticks_routed : ℕ
  pub ticks_dropped : ℕ
  pub ticks_unknown : ℕ

-- The router with the buffers that its pointers lead to.
pub record Routing (D : Type 0) : Type 0 where
  pub router : TickRouter
  pub buffers : List (SpscRingBuffer (UniversalTickRecord D))

-- A tick buffer has 16384 = 2^14 slots.
abbrev pub tick_exponent : ℕ
tick_exponent = 14

abbrev pub next_count : ℕ → ℕ
next_count n = (n + 1) % 2 ^ 64

unfoldable pub make_router : ℕ → TickRouter
make_router max_symbols = record {
  max_symbols = max_symbols;
  symbol_map = [];
  ticks_routed = 0;
  ticks_dropped = 0;
  ticks_unknown = 0;
}

-- No buffer stands for a null pointer.
unfoldable pub register_symbol : TickRouter → ℕ → Option ℕ → Bool × TickRouter
register_symbol r symbol_id none = (false, r)
register_symbol r symbol_id (some buffer) =
    if leb r.max_symbols (length r.symbol_map)
    then (false, r)
    else (true, record r { symbol_map = alter r.symbol_map symbol_id buffer (λ old. buffer) })

unfoldable pub unregister_symbol : TickRouter → ℕ → TickRouter
unregister_symbol r symbol_id = record r { symbol_map = erase r.symbol_map symbol_id }

unfoldable pub active_symbols : TickRouter → ℕ
active_symbols r = length r.symbol_map % 2 ^ 32

unfoldable pub get_stats : TickRouter → RouterStats
unfolding active_symbols
get_stats r = record {
  ticks_routed_total = r.ticks_routed;
  ticks_dropped_total = r.ticks_dropped;
  ticks_unknown_symbol = r.ticks_unknown;
  ticks_per_second = 0;
  active_symbols = length r.symbol_map % 2 ^ 32;
}

module _ {D : Type 0} where
  -- What the push into the registered buffer comes to; none is a pointer to no buffer.
  abbrev pub push_to :
      Routing D
      → UniversalTickRecord D
      → ℕ
      → Option (SpscRingBuffer (UniversalTickRecord D))
      → Option (Bool × Routing D)
  push_to s tick pointer none = none
  push_to s tick pointer (some buffer) =
      let (pushed, buffer') = try_push tick_exponent tick buffer in
      let r = s.router in
      some (
        pushed,
        record {
          router = record r {
            ticks_routed = if pushed then next_count r.ticks_routed else r.ticks_routed;
            ticks_dropped = if pushed then r.ticks_dropped else next_count r.ticks_dropped;
          };
          buffers = set s.buffers pointer buffer';
        },
      )

  abbrev pub route_to : Routing D → UniversalTickRecord D → Option ℕ → Option (Bool × Routing D)
  route_to s tick none =
      let r = s.router in
      some (false, record s { router = record r { ticks_unknown = next_count r.ticks_unknown } })
  route_to s tick (some pointer) = push_to s tick pointer (get_elem? s.buffers pointer)

  unfoldable pub route : Routing D → UniversalTickRecord D → Option (Bool × Routing D)
  route s tick = route_to s tick (lookup s.router.symbol_map tick.symbol_id)

  unfoldable pub route_all : Routing D → List (UniversalTickRecord D) → Option (Routing D)
  route_all s [] = some s
  route_all s (tick ∷ ticks) = elim (route s tick) [
    | none ↦ none
    | some (placed, s') ↦ route_all s' ticks
  ]

-- `std::toupper` on the characters of the C locale.
abbrev pub to_upper : ℕ → ℕ
to_upper c = if leb 97 c && leb c 122 then c - 32 else c

abbrev pub fnv_prime : ℕ
fnv_prime = 16777619

abbrev pub fnv_offset : ℕ
fnv_offset = 2166136261

abbrev pub hash_step : ℕ → ℕ → ℕ
hash_step hash c = bit_xor hash c * fnv_prime % 2 ^ 32

-- A symbol is the list of its characters.
unfoldable pub compute_symbol_id : List ℕ → ℕ
compute_symbol_id symbol = foldl hash_step fnv_offset (map to_upper symbol)
