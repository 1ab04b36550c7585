-- ===== src/Ofe/Ring/Run.antt =====
-- Whole sequences of calls of the ring buffer of include/ofe/core/ring_buffer.h.
use native.Mathlib.Nat.{mod-lt}
use rudra_org.Common.{
  get_elem?-replicate, ℕ, zero, suc, ◌+◌, ◌-◌, ◌%◌, ◌^◌, ◌≤◌, ◌<◌, ◌≡◌, refl, Option, none, some,
  List, [], ◌∷◌, arith, length, length-replicate, Bool-cases, ltb, inl, inr, ltb→lt, replicate,
}
use rudra_org.Common.Bits.{two_pow-pos}
use rudra_org.Common.Window.{Holds}
use rudra_org.Common.Queue
use rudra_org.Common.Queue.{Op, push, pop, Reply}
use rudra_org.Ofe.Ring.{RingBuffer, initial, call, run}
use rudra_org.Ofe.Ring.Refine.{
  Refines, try_push_full, try_push_room, pushed_ring, pushed_ring-Refines, try_pop_nothing,
  try_pop_item, popped_ring, popped_ring-Refines,
}

initial-Holds {ℓ} :
    (A : Type ℓ) (n h m : ℕ)
    → h < n
    → Holds {A = Option A} n (replicate n none) h (replicate m none)
initial-Holds A n h zero low = tt
initial-Holds A n h (suc m) low =
    (get_elem?-replicate n h none low, initial-Holds A n ((h + 1) % n) m (omega arith))

module _ {ℓ} {A : Type ℓ} (k : ℕ) where
  -- Each call answers as the queue does, and leaves the buffer holding the queue's items.
  pub call-Refines :
      (r : RingBuffer A) (q : List A) (op : Op A)
      → Refines k r q
      → let (reply, q') = Queue.step (2 ^ k) q op in
        (r' : RingBuffer A) × (call k r op ≡ some (reply, r')) × Refines k r' q'
  unfolding call Queue.step
  call-Refines r q (push a) v = elim (Bool-cases (ltb (length q) (2 ^ k))) [
    | inl fits ↦ rw fits (
      pushed_ring k r a,
      rw (try_push_room k a v (ltb→lt _ _ fits)),
      pushed_ring-Refines k a v (ltb→lt _ _ fits),
    )
    | inr full ↦ rw full (r, rw (try_push_full k a v (ground (arith, v.room))), v)
  ]
  call-Refines r [] pop v = (r, rw (try_pop_nothing k v), v)
  call-Refines r (x ∷ q) pop v =
      (popped_ring k r, rw (try_pop_item k x v), popped_ring-Refines k x v)

  pub run-Refines :
      (r : RingBuffer A) (q : List A) (ops : List (Op A))
      → Refines k r q
      → run k r ops ≡ some (Queue.run (2 ^ k) q ops)
  unfolding run Queue.run
  run-Refines r q [] v = refl
  run-Refines r q (op ∷ ops) v =
      let (r', answered, v') = call-Refines r q op v in
      rw (answered, run, run-Refines r' (Queue.step (2 ^ k) q op).1 ops v')

  pub initial-Refines : k ≤ 63 → Refines {A = A} k (initial k) []
  unfolding initial
  initial-Refines small = record {
    small = small;
    storage_size = length-replicate (2 ^ k) none;
    tail_in = omega arith;
    head_at = refl;
    room = omega arith;
    slots = initial-Holds _ (2 ^ k) (0 % 2 ^ k) (2 ^ k - 0) (mod-lt 0 (two_pow-pos k));
  }

  -- Any sequence of pushes and pops on a fresh buffer, whose capacity `2^k` is a `size_t`, answers
  -- each call as a first-in first-out queue of at most `2^k` items does. No pop ever reads a slot
  -- without an object, also when the counters wrap.
  pub run-initial :
      k ≤ 63 → (ops : List (Op A)) → run k (initial k) ops ≡ some (Queue.run (2 ^ k) [] ops)
  run-initial small ops = run-Refines (initial k) [] ops (initial-Refines small)
