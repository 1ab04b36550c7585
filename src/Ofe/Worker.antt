-- ===== src/Ofe/Worker.antt =====
-- include/ofe/core/symbol_worker.h: a worker that pops ticks from its ring buffer, runs them through
-- eleven stages and publishes each. The producer's calls and the loop's rounds are the steps of a
-- schedule; each step is one call, which the ring buffer keeps apart from the other thread's.
pub mod Pipeline
mod Tests
use rudra_org.Common.{
  ℕ, ◌+◌, ◌≡◌, Bool, true, false, Option, none, some, List, [], ◌∷◌, ◌++◌, leb, if◌then◌else◌, set,
  replicate,
}
use rudra_org.Float.{Double}
use rudra_org.Ofe.Tick.{UniversalTickRecord}
use rudra_org.Ofe.Ring.{RingBuffer, Popped, nothing, item, undefined, initial, try_push, try_pop}
use rudra_org.Ofe.Signals.{SignalEvent, SignalType, ImbalanceZone, blank_event}

-- A handler is a closure: what it does to the state `S` that the closures share.
abbrev pub StageHandler : Type 0 → Type 0 → Type 0
StageHandler D S = UniversalTickRecord D → ℕ → S → S

abbrev pub stage_count : ℕ
stage_count = 11

-- The ingress buffer has 4096 = 2^12 slots.
abbrev pub ingress_exponent : ℕ
ingress_exponent = 12

-- `has_bus` is `event_bus_ != nullptr`; `published` is what the bus has been given, in order.
pub record SymbolWorker (D S : Type 0) : Type 0 where
  pub has_bus : Bool
  pub ingress : RingBuffer (UniversalTickRecord D)
  pub running : Bool
  pub stages : List (Option (StageHandler D S))
  pub shared : S
  pub published : List (SignalEvent D)

unfoldable pub tick_event : {D : Type 0} ⦃d : Double D⦄ → UniversalTickRecord D → SignalEvent D
tick_event tick = record blank_event {
  timestamp_ns = tick.timestamp_ns;
  symbol_id = tick.symbol_id;
  price = tick.price;
  reference_price = tick.bid_price;
  volume = tick.size;
  signal_type = SignalType.unknown;
  imbalance_zone = ImbalanceZone.neutral;
}

module _ {D S : Type 0} ⦃d : Double D⦄ where
  unfoldable pub make_worker : Bool → S → SymbolWorker D S
  make_worker has_bus shared = record {
    has_bus = has_bus;
    ingress = initial ingress_exponent;
    running = false;
    stages = replicate stage_count none;
    shared = shared;
    published = [];
  }

  unfoldable pub set_stage : SymbolWorker D S → ℕ → Option (StageHandler D S) → SymbolWorker D S
  set_stage w index handler =
      if leb stage_count index then w else record w { stages = set w.stages index handler }

  -- A second start of a running worker changes nothing.
  unfoldable pub start : SymbolWorker D S → SymbolWorker D S
  start w = record w { running = true }

  unfoldable pub stop : SymbolWorker D S → SymbolWorker D S
  stop w = record w { running = false }

  unfoldable pub submit : SymbolWorker D S → UniversalTickRecord D → Bool × SymbolWorker D S
  submit w tick =
      let (done, ring) = try_push ingress_exponent tick w.ingress in
      (done, record w { ingress = ring })

  -- The loop over the stages, from one stage on.
  unfoldable pub run_stages : List (Option (StageHandler D S)) → ℕ → UniversalTickRecord D → S → S
  run_stages [] stage tick s = s
  run_stages (none ∷ rest) stage tick s = run_stages rest (stage + 1) tick s
  run_stages (some handler ∷ rest) stage tick s =
      run_stages rest (stage + 1) tick (handler tick stage s)

  unfoldable pub publish_tick : SymbolWorker D S → UniversalTickRecord D → SymbolWorker D S
  publish_tick w tick =
      if w.has_bus then record w { published = w.published ++ tick_event tick ∷ [] } else w

  unfoldable pub process : SymbolWorker D S → UniversalTickRecord D → SymbolWorker D S
  process w tick =
      let w' = record w { shared = run_stages w.stages 0 tick w.shared } in
      if w'.has_bus then publish_tick w' tick else w'

  abbrev pub handle : SymbolWorker D S → Popped (UniversalTickRecord D) → Option (SymbolWorker D S)
  handle w nothing = some w
  handle w (item tick ring) = some (process (record w { ingress = ring }) tick)
  handle w undefined = none

  -- One round of the loop of `run`; `none` is undefined behaviour.
  unfoldable pub round : SymbolWorker D S → Option (SymbolWorker D S)
  round w = if w.running then handle w (try_pop ingress_exponent w.ingress) else some w

-- What the producer's thread and the worker's thread do next.
pub data Action (D : Type 0) : Type 0 where
  submit_tick : UniversalTickRecord D → Action D
  run_round : Action D

module _ {D S : Type 0} ⦃d : Double D⦄ where
  -- A schedule, with the ticks that `submit` accepted in the order of the calls.
  unfoldable pub perform :
      SymbolWorker D S → List (Action D) → Option (List (UniversalTickRecord D) × SymbolWorker D S)
  perform w [] = some ([], w)
  perform w (submit_tick tick ∷ rest) =
      let (done, w') = submit w tick in
      elim (perform w' rest) [
        | none ↦ none
        | some (accepted, w'') ↦ some ((if done then tick ∷ accepted else accepted), w'')
      ]
  perform w (run_round ∷ rest) = elim (round w) [ none ↦ none | some w' ↦ perform w' rest ]
