-- ===== src/Ofe/Ring/Tests.antt =====
-- Runs of the ring buffer, and its theorems at concrete buffers.
use rudra_org.Common.{ℕ, ◌-◌, ◌^◌, ◌≡◌, refl, false, Option, none, some, List, [], ◌∷◌, arith}
use rudra_org.Common.Queue
use rudra_org.Common.Queue.{Op, push, pop, pushed, popped}
use rudra_org.Ofe.Ring.{
  RingBuffer, initial, try_push, try_pop, call, run, clear, clear_unsafe, size_approx,
}
use rudra_org.Ofe.Ring.Refine.{Refines}
use rudra_org.Ofe.Ring.Run.{run-initial}
use rudra_org.Ofe.Ring.Clear.{clear-Refines, clear_unsafe-IsVacant, IsVacant}

-- Two slots, with the counters about to wrap: 7 and 8 are stored.
abbrev wrapping : RingBuffer ℕ
wrapping = record { storage = some 8 ∷ some 7 ∷ []; head = 1; tail = 2 ^ 64 - 1 }

abbrev script : List (Op ℕ)
script = push 1 ∷ push 2 ∷ push 3 ∷ pop ∷ push 4 ∷ pop ∷ pop ∷ pop ∷ []

wrapping_size : size_approx wrapping ≡ 2
unfolding size_approx
wrapping_size = refl

wrapping_runs :
    run 1 wrapping (push 9 ∷ pop ∷ pop ∷ pop ∷ [])
    ≡ some (pushed false ∷ popped (some 7) ∷ popped (some 8) ∷ popped none ∷ [])
unfolding run call try_push try_pop
wrapping_runs = refl

wrapping-Refines : Refines 1 wrapping (7 ∷ 8 ∷ [])
wrapping-Refines = record {
  small = omega arith;
  storage_size = refl;
  tail_in = omega arith;
  head_at = refl;
  room = omega arith;
  slots = (refl, (refl, tt));
}

run-initial_example : run 1 (initial 1) script ≡ some (Queue.run 2 [] script)
run-initial_example = run-initial 1 (omega arith) script

clear-Refines_example : (r' : RingBuffer ℕ) × (clear 1 3 wrapping ≡ some r') × Refines 1 r' []
clear-Refines_example = clear-Refines 1 3 wrapping (7 ∷ 8 ∷ []) wrapping-Refines (omega arith)

clear_unsafe-IsVacant_example :
    (storage : List (Option ℕ)) × (clear_unsafe 1 3 wrapping ≡ some storage) × IsVacant 1 storage
clear_unsafe-IsVacant_example =
    clear_unsafe-IsVacant 1 3 wrapping (7 ∷ 8 ∷ []) wrapping-Refines (omega arith)
