-- ===== src/Session/Ring/Tests.antt =====
-- Runs of the ring buffer with masked indices, and its theorems at concrete buffers.
use rudra_org.Common.{ℕ, ◌^◌, ◌%◌, ◌≡◌, refl, true, false, none, some, List, [], ◌∷◌, arith}
use rudra_org.Common.Queue
use rudra_org.Common.Queue.{Op, push, pop, pushed, popped}
use rudra_org.Session.Ring.{SpscRingBuffer, initial, dropped_count, run}
use rudra_org.Session.Ring.Refine.{Refines}
use rudra_org.Session.Ring.Run.{refusals, run_lem}

-- Two slots hold one item.
abbrev script : List (Op ℕ)
script = push 1 ∷ push 2 ∷ pop ∷ push 3 ∷ pop ∷ pop ∷ []

script_queue :
    Queue.run 1 [] script
    ≡ pushed true
      ∷ pushed false
      ∷ popped (some 1)
      ∷ pushed true
      ∷ popped (some 3)
      ∷ popped none
      ∷ []
unfolding Queue.run Queue.step
script_queue = refl

run_lem_example :
    let replies = Queue.run 1 [] script in
    (r' : SpscRingBuffer ℕ) × (run 1 (initial 1 0) script ≡ some (replies, r'))
    × (dropped_count r' ≡ refusals replies % 2 ^ 64)
run_lem_example = run_lem 1 0 script (omega arith)

abbrev wrapped : SpscRingBuffer ℕ
wrapped = record { head = 3; tail = 1; dropped = 0; slots = 8 ∷ 0 ∷ 0 ∷ 7 ∷ [] }

wrapped-Refines : Refines 2 wrapped (7 ∷ 8 ∷ [])
wrapped-Refines = record {
  small = omega arith;
  slot_count = refl;
  head_in = omega arith;
  tail_at = refl;
  room = omega arith;
  items = (refl, (refl, tt));
}
