-- ===== src/Ofe/Worker/Tests.antt =====
-- Runs of the worker, and its theorem at a concrete schedule.
use rudra_org.Common.{ℕ, ◌+◌, ◌*◌, ◌≡◌, refl, true, none, some, List, [], ◌∷◌, arith}
use rudra_org.Common.Int.{pos}
use rudra_org.Float.Fixed.{Fixed, fixed_double}
use rudra_org.Ofe.Tick.{UniversalTickRecord}
use rudra_org.Ofe.Ring.Run.{initial-Refines}
use rudra_org.Ofe.Worker.{
  SymbolWorker, StageHandler, submit_tick, run_round, make_worker, set_stage, start, perform,
  run_stages,
}
use rudra_org.Ofe.Worker.Pipeline.{Queued, Progress, perform-Progress}

abbrev tick : ℕ → UniversalTickRecord Fixed
tick n = record {
  timestamp_ns = n;
  sequence = n;
  symbol_id = 1;
  venue_id = 0;
  price = pos 100;
  size = pos 1;
  bid_price = pos 99;
  ask_price = pos 101;
  bid_size = 5;
  ask_size = 5;
}

-- The stages note the stage and the time of each tick.
abbrev note : StageHandler Fixed (List ℕ)
note t stage s = (stage * 1000 + t.timestamp_ns) ∷ s

abbrev worker : SymbolWorker Fixed (List ℕ)
worker = start (set_stage (set_stage (make_worker true []) 3 (some note)) 7 (some note))

stages_run_in_order :
    run_stages (none ∷ some note ∷ none ∷ some note ∷ []) 0 (tick 5) [] ≡ 3005 ∷ 1005 ∷ []
unfolding run_stages
stages_run_in_order = refl

worker-Queued : Queued worker []
unfolding start set_stage make_worker
worker-Queued = record { runs = refl; queue = initial-Refines 12 (omega arith) }

perform-Progress_example :
    (accepted : List (UniversalTickRecord Fixed)) × (w' : SymbolWorker Fixed (List ℕ)) × (perform
        worker
        (submit_tick (tick 1) ∷ run_round ∷ submit_tick (tick 2) ∷ [])
      ≡ some (accepted, w'))
    × Progress worker w' [] accepted
perform-Progress_example =
    perform-Progress worker [] (submit_tick (tick 1) ∷ run_round ∷ submit_tick (tick 2) ∷ [])
      worker-Queued
